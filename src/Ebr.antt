-- ===== src/Ebr.antt =====
-- crates/zerokv/src/ebr.rs: the reclamation domain, each call run alone.
pub mod Bags
pub mod Epochs
pub mod Guards
pub mod Held
pub mod Protocol
mod Tests
use zerokv.Prelude.{
  ℕ, zero, suc, ◌+◌, ◌-◌, ◌%◌, ◌^◌, min, max, Bool, true, false, ◌&&◌, not, Option, none, some,
  List, [], ◌∷◌, ◌++◌, get_elem?, set, take, replicate, ◌==◌, leb, if◌then◌else◌,
}
use zerokv.Words.{word}

abbrev pub n_slots : ℕ
n_slots = 4096

abbrev pub n_bags : ℕ
n_bags = 3

-- `FREE` and `UNPINNED`: slot values that are no epoch.
abbrev pub free_slot : ℕ
free_slot = word - 1

abbrev pub unpinned : ℕ
unpinned = 2 ^ 62

-- `Retired`, without the link to the next record of its bag.
pub record Retired : Type 0 where
  pub ptr : ℕ
  pub drop_fn : ℕ
  pub epoch : ℕ

-- `Domain`. A bag is its chain of records, the newest first.
pub record Domain : Type 0 where
  pub epoch : ℕ
  pub slots : List ℕ
  pub bags : List (List Retired)
  pub hwm : ℕ

pub new : Domain
new = record { epoch = 0; slots = replicate n_slots free_slot; bags = replicate n_bags []; hwm = 0 }

-- The probe of `local_slot`: the first slot, counted from `i`, that is free.
pub probe : List ℕ → ℕ → Option ℕ
probe [] i = none
probe (v ∷ vs) i = if v == free_slot then some i else probe vs (suc i)

claim : Domain → ℕ → Domain
claim d i = record d { slots = set d.slots i unpinned; hwm = max d.hwm i }

-- The argument is the thread's cached index; `none` is the panic on exhausted slots.
pub local_slot : Domain → Option ℕ → Option (ℕ × Domain)
unfolding probe claim
local_slot d (some cached) = some (cached, d)
local_slot d none = elim (probe d.slots 0) [ none ↦ none | some i ↦ some (i, claim d i) ]

publish : ℕ × Domain → ℕ × Domain
publish (idx, d) = (idx, record d { slots = set d.slots idx d.epoch })

-- The index is that of the `Guard`, and what the thread caches.
pub pin : Domain → Option ℕ → Option (ℕ × Domain)
unfolding local_slot publish
pin d cached = elim (local_slot d cached) [ none ↦ none | some claimed ↦ some (publish claimed) ]

pub bag_at : List (List Retired) → ℕ → List Retired
bag_at bags i = elim (get_elem? bags i) [ none ↦ [] | some bag ↦ bag ]

pub retire : Domain → ℕ → ℕ → Domain
unfolding bag_at
retire d ptr drop_fn =
    let e = d.epoch in
    let node : Retired = record { ptr = ptr; drop_fn = drop_fn; epoch = e } in
    record d { bags = set d.bags (e % n_bags) (node ∷ bag_at d.bags (e % n_bags)) }

-- `v != FREE && v != UNPINNED`, and then `v != g`.
abbrev pub blocks : ℕ → ℕ → Bool
blocks g v = not (v == free_slot) && not (v == unpinned) && not (v == g)

-- The scan of the claimed slots.
pub can_advance : ℕ → List ℕ → Bool
can_advance g [] = true
can_advance g (v ∷ vs) = if blocks g v then false else can_advance g vs

saturating_add : ℕ → ℕ → ℕ
saturating_add a b = min (a + b) (word - 1)

unfoldable pub eligible : ℕ → Retired → Bool
unfolding saturating_add
eligible cur r = leb (saturating_add r.epoch 2) cur

-- The first loop of `reclaim_bag`: the records freed, oldest call first, and the keep list.
sift : ℕ → List Retired → List Retired → List Retired × List Retired
sift cur [] keep = ([], keep)
sift cur (r ∷ rest) keep =
    let dropped = sift cur rest keep in
    let kept = sift cur rest (r ∷ keep) in
    if eligible cur r then (r ∷ dropped.0, dropped.1) else kept

-- The second loop: each kept record is pushed back onto the bag.
push_back : List Retired → List Retired → List Retired
push_back [] bag = bag
push_back (r ∷ keep) bag = push_back keep (r ∷ bag)

-- What is freed, and what the bag holds afterwards; the bag is empty once the chain is detached.
pub reclaim_bag : ℕ → List Retired → List Retired × List Retired
unfolding sift push_back
reclaim_bag cur bag = let (freed, keep) = sift cur bag [] in (freed, push_back keep [])

pub reclaim_bags : ℕ → List (List Retired) → List Retired × List (List Retired)
reclaim_bags cur [] = ([], [])
reclaim_bags cur (bag ∷ bags) =
    let (freed, bag') = reclaim_bag cur bag in
    let (more, bags') = reclaim_bags cur bags in (freed ++ more, bag' ∷ bags')

-- The records that are freed, and the domain afterwards. Run alone, the compare-exchange succeeds.
pub try_collect : Domain → List Retired × Domain
try_collect d =
    let g = d.epoch in
    let hwm = min d.hwm (n_slots - 1) in
    let cur = if can_advance g (take (suc hwm) d.slots) then g + 1 else g in
    let (freed, bags) = reclaim_bags cur d.bags in (freed, record d { epoch = cur; bags = bags })

abbrev pub collect_interval : ℕ
collect_interval = 128

-- `Drop for Guard`: the thread's tick, a `u32`, says whether this drop collects.
pub drop_guard : ℕ → ℕ → Domain → List Retired × ℕ × Domain
unfolding try_collect
drop_guard idx tick d =
    let d' = record d { slots = set d.slots idx unpinned } in
    let n = (tick + 1) % 2 ^ 32 in
    let (freed, d'') = try_collect d' in
    if n % collect_interval == 0 then (freed, n, d'') else ([], n, d')
