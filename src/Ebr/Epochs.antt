-- ===== src/Ebr/Epochs.antt =====
-- `try_collect`: when the epoch advances, and what a collection frees and keeps.
use mathlib.Core.List.{flatten}
use zerokv.Prelude.{
  ℕ, zero, suc, ◌+◌, ◌-◌, ◌≤◌, ◌<◌, min, ◌≡◌, refl, ◌⊎◌, true, false, Bool-cases, some, List, [],
  ◌∷◌, map, filter, take, get_elem?, arith, inl, inr, All, All-filter_test, leb→le, ◌↔◌,
}
use zerokv.Words.{word}
use zerokv.Ebr.{
  Retired, Domain, eligible, can_advance, blocks, try_collect, n_slots, free_slot, unpinned,
}
use zerokv.Ebr.Bags.{young, reclaim_bags_lem}

-- A slot value that does not hold the epoch `g` back.
abbrev pub IsQuiet : ℕ → ℕ → Type 0
IsQuiet g v = (v ≡ free_slot) ⊎ (v ≡ unpinned) ⊎ (v ≡ g)

blocks-IsQuiet : (g v : ℕ) → blocks g v ≡ false → IsQuiet g v
blocks-IsQuiet g v h = ground arith

IsQuiet-blocks : (g v : ℕ) → IsQuiet g v → blocks g v ≡ false
IsQuiet-blocks g v (inl e) = ground arith
IsQuiet-blocks g v (inr (inl e)) = ground arith
IsQuiet-blocks g v (inr (inr e)) = ground arith

-- All slots of the scanned prefix are quiet.
abbrev pub AllQuiet : ℕ → List ℕ → ℕ → Type 0
AllQuiet g slots n = (i v : ℕ) → i < n → get_elem? slots i ≡ some v → IsQuiet g v

can_advance-AllQuiet :
    (g : ℕ) (slots : List ℕ) (n : ℕ) → can_advance g (take n slots) ≡ true → AllQuiet g slots n
unfolding can_advance
can_advance-AllQuiet g slots zero h i v lt e = absurd (omega arith)
can_advance-AllQuiet g [] (suc n) h i v lt e = cc
can_advance-AllQuiet g (x ∷ xs) (suc n) h zero v lt e = blocks-IsQuiet g v (ground (arith, e))
can_advance-AllQuiet g (x ∷ xs) (suc n) h (suc i) v lt e =
    can_advance-AllQuiet g xs n (ground arith) i v (omega arith) e

AllQuiet-can_advance :
    (g : ℕ) (slots : List ℕ) (n : ℕ) → AllQuiet g slots n → can_advance g (take n slots) ≡ true
unfolding can_advance
AllQuiet-can_advance g slots zero q = refl
AllQuiet-can_advance g [] (suc n) q = refl
AllQuiet-can_advance g (x ∷ xs) (suc n) q =
    rw (IsQuiet-blocks g x (q 0 x (omega arith) refl))
      (AllQuiet-can_advance g xs n (λ i v lt e. q (suc i) v (omega arith) e))

-- The number of slots that the scan reads.
abbrev pub scanned : Domain → ℕ
scanned d = suc (min d.hwm (n_slots - 1))

-- The epoch moves by one exactly when each slot up to the high-water mark is free, unpinned or
-- pinned at the present epoch, and otherwise it stays; slots and high-water mark are not touched.
pub try_collect-epoch :
    (d : Domain)
    → let d' = (try_collect d).1 in
      (((d'.epoch ≡ d.epoch + 1) ↔ AllQuiet d.epoch d.slots (scanned d)))
      × ((d'.epoch ≡ d.epoch) ⊎ (d'.epoch ≡ d.epoch + 1))
      × (d'.slots ≡ d.slots)
      × (d'.hwm ≡ d.hwm)
unfolding try_collect
try_collect-epoch d = elim (Bool-cases (can_advance d.epoch (take (scanned d) d.slots))) [
  | inl e ↦ rw e (
    ((λ _. can_advance-AllQuiet d.epoch d.slots (scanned d) e), (λ _. refl)),
    inr refl,
    refl,
    refl,
  )
  | inr e ↦ rw e (
    (
      (λ p. absurd (omega arith)),
      (λ q. cc (e, AllQuiet-can_advance d.epoch d.slots (scanned d) q)),
    ),
    inl refl,
    refl,
    refl,
  )
]

pub eligible-old :
    (cur : ℕ) (r : Retired) → cur < word - 1 → eligible cur r ≡ true → r.epoch + 2 ≤ cur
unfolding eligible
eligible-old cur r small e = omega (arith, leb→le _ _ e)

-- Below the largest word, a collection frees exactly the records of all bags that are eligible at
-- the epoch it leaves, each retired at least two epochs before, and keeps all others in their bags,
-- in order.
pub try_collect-bags :
    (d : Domain)
    → (try_collect d).1.epoch < word - 1
    → let (freed, d') = try_collect d in
      (freed ≡ filter (eligible d'.epoch) (flatten d.bags))
      × (d'.bags ≡ map (filter (young d'.epoch)) d.bags)
      × All (λ r. r.epoch + 2 ≤ d'.epoch) freed
unfolding try_collect
try_collect-bags d small = rw reclaim_bags_lem (
  refl,
  refl,
  All-filter_test _ _ (λ r e. eligible-old (try_collect d).1.epoch r small e) (flatten d.bags),
)
