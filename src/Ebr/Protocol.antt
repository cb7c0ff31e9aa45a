-- ===== src/Ebr/Protocol.antt =====
-- ebr.rs with any number of participants and of collections at once: each step is one load, store,
-- compare-exchange or swap, taken in one order that all see; an allocation is freed in a step of its
-- own, and each kept record is pushed back in one. Participants are named by their slot, and each
-- holds one guard at a time.
pub mod Defs
pub mod Later
pub mod Threads
pub mod Collectors
pub mod Safety
use zerokv.Prelude.{
  ℕ, suc, ◌+◌, ◌-◌, ◌%◌, ◌≤◌, ◌<◌, min, max, Bool, true, false, Option, none, some, List, [], ◌∷◌,
  ◌++◌, ◌≡◌, ◌≢◌, ◌==◌, if◌then◌else◌,
}
use zerokv.Ebr.{Retired, n_slots, n_bags, free_slot, unpinned, blocks, eligible}

abbrev pub update : {A : Type 0} → (ℕ → A) → ℕ → A → ℕ → A
update f i v j = if i == j then v else f j

-- Where a participant stands.
pub data Pc : Type 0 where
  absent : Pc  -- it has no slot
  claimed : Pc  -- it has won its slot, and has not raised the high-water mark
  idle : Pc  -- registered, with no guard
  loaded : (e : ℕ) → Pc  -- in `pin`: the epoch is loaded, the slot not yet stored
  active : Pc  -- it holds a guard
  unlinking : (p : ℕ) → Pc  -- it has taken `p` out of the structure and calls `retire`
  tagging : (p e : ℕ) → Pc  -- in `retire`: the epoch is loaded, the record not yet pushed

-- Where a collection stands in `try_collect`.
pub data Collect : Type 0 where
  off : Collect
  began : (g : ℕ) → Collect  -- the epoch is loaded
  scanning : (g last j : ℕ) → Collect  -- slots below `j` did not block; `last` is the last to read
  advancing : (g : ℕ) → Collect  -- before the compare-exchange
  advanced : Collect  -- after the compare-exchange, or a slot blocked
  reclaiming : (cur b : ℕ) → Collect  -- before bag `b`
  -- the chain of bag `b` is detached; what is left of it, and the keep list
  draining : (cur b : ℕ) (chain keep : List Retired) → Collect
  repushing : (cur b : ℕ) (keep : List Retired) → Collect  -- the keep list goes back to bag `b`

-- What has become of an allocation. A tag is the epoch that `retire` read for it.
pub data Cell : Type 0 where
  linked : Cell
  unlinked : (owner : ℕ) → Cell
  tagged : (e : ℕ) → Cell
  freed : (e : ℕ) → Cell

-- The shared words of the domain, the participants, the collections and, as records of the past,
-- the allocations, the epoch at which each participant stored its slot, and for each participant the
-- allocations that have been in the structure at some time since then and the references that it has
-- loaded since then.
pub record World : Type 0 where
  pub epoch : ℕ
  pub slot : ℕ → ℕ
  pub hwm : ℕ
  pub bag : ℕ → List Retired
  pub thread : ℕ → Pc
  pub collector : ℕ → Collect
  pub heap : ℕ → Cell
  pub since : ℕ → ℕ
  pub met : ℕ → ℕ → Bool
  pub holds : ℕ → ℕ → Bool

abbrev pub is_linked : Cell → Bool
is_linked linked = true
is_linked (unlinked owner) = false
is_linked (tagged e) = false
is_linked (freed e) = false

-- `load` takes a reference to any allocation that the participant can come to: one that has been in
-- the structure under its guard, also where it is found by the link of one that has been taken out.
pub data Step (s : World) : World → Type 0 where
  claim :
      (i : ℕ)
      → i < n_slots
      → s.thread i ≡ absent
      → s.slot i ≡ free_slot
      → Step s (record s { slot = update s.slot i unpinned; thread = update s.thread i claimed })
  raise :
      (i : ℕ)
      → s.thread i ≡ claimed
      → Step s (record s { hwm = max s.hwm i; thread = update s.thread i idle })
  pin_load :
      (i : ℕ)
      → s.thread i ≡ idle
      → Step s (record s { thread = update s.thread i (loaded s.epoch) })
  pin_store :
      (i e : ℕ)
      → s.thread i ≡ loaded e
      → Step s (record s {
        slot = update s.slot i e;
        thread = update s.thread i active;
        since = update s.since i s.epoch;
        met = update s.met i (λ p. is_linked (s.heap p));
        holds = update s.holds i (λ _. false);
      })
  load :
      (i p : ℕ)
      → s.thread i ≡ active
      → s.met i p ≡ true
      → Step s (record s { holds = update s.holds i (update (s.holds i) p true) })
  unlink :
      (i p : ℕ)
      → s.thread i ≡ active
      → s.heap p ≡ linked
      → Step s (record s {
        heap = update s.heap p (unlinked i);
        thread = update s.thread i (unlinking p);
      })
  tag :
      (i p : ℕ)
      → s.thread i ≡ unlinking p
      → Step s (record s {
        heap = update s.heap p (tagged s.epoch);
        thread = update s.thread i (tagging p s.epoch);
      })
  push :
      (i p e drop_fn : ℕ)
      → s.thread i ≡ tagging p e
      → Step s (record s {
        bag =
            update s.bag
              (e % n_bags)
              (record { ptr = p; drop_fn = drop_fn; epoch = e } ∷ s.bag (e % n_bags));
        thread = update s.thread i active;
      })
  unpin :
      (i : ℕ)
      → s.thread i ≡ active
      → Step s (record s {
        slot = update s.slot i unpinned;
        thread = update s.thread i idle;
        met = update s.met i (λ _. false);
        holds = update s.holds i (λ _. false);
      })
  begin :
      (c : ℕ)
      → s.collector c ≡ off
      → Step s (record s { collector = update s.collector c (began s.epoch) })
  scan :
      (c g : ℕ)
      → s.collector c ≡ began g
      → Step s
          (record s { collector = update s.collector c (scanning g (min s.hwm (n_slots - 1)) 0) })
  pass :
      (c g last j : ℕ)
      → s.collector c ≡ scanning g last j
      → j ≤ last
      → blocks g (s.slot j) ≡ false
      → Step s (record s { collector = update s.collector c (scanning g last (suc j)) })
  block :
      (c g last j : ℕ)
      → s.collector c ≡ scanning g last j
      → j ≤ last
      → blocks g (s.slot j) ≡ true
      → Step s (record s { collector = update s.collector c advanced })
  scan_done :
      (c g last j : ℕ)
      → s.collector c ≡ scanning g last j
      → last < j
      → Step s (record s { collector = update s.collector c (advancing g) })
  win :
      (c g : ℕ)
      → s.collector c ≡ advancing g
      → s.epoch ≡ g
      → Step s (record s { epoch = g + 1; collector = update s.collector c advanced })
  lose :
      (c g : ℕ)
      → s.collector c ≡ advancing g
      → s.epoch ≢ g
      → Step s (record s { collector = update s.collector c advanced })
  reload :
      (c : ℕ)
      → s.collector c ≡ advanced
      → Step s (record s { collector = update s.collector c (reclaiming s.epoch 0) })
  detach :
      (c cur b : ℕ)
      → s.collector c ≡ reclaiming cur b
      → b < n_bags
      → Step s (record s {
        bag = update s.bag b [];
        collector = update s.collector c (draining cur b (s.bag b) []);
      })
  free :
      (c cur b : ℕ) (r : Retired) (chain keep : List Retired)
      → s.collector c ≡ draining cur b (r ∷ chain) keep
      → eligible cur r ≡ true
      → Step s (record s {
        heap = update s.heap r.ptr (freed r.epoch);
        collector = update s.collector c (draining cur b chain keep);
      })
  keep :
      (c cur b : ℕ) (r : Retired) (chain kept : List Retired)
      → s.collector c ≡ draining cur b (r ∷ chain) kept
      → eligible cur r ≡ false
      → Step s (record s { collector = update s.collector c (draining cur b chain (r ∷ kept)) })
  drained :
      (c cur b : ℕ) (kept : List Retired)
      → s.collector c ≡ draining cur b [] kept
      → Step s (record s { collector = update s.collector c (repushing cur b kept) })
  repush :
      (c cur b : ℕ) (r : Retired) (kept : List Retired)
      → s.collector c ≡ repushing cur b (r ∷ kept)
      → Step s (record s {
        bag = update s.bag b (r ∷ s.bag b);
        collector = update s.collector c (repushing cur b kept);
      })
  repushed :
      (c cur b : ℕ)
      → s.collector c ≡ repushing cur b []
      → Step s (record s { collector = update s.collector c (reclaiming cur (suc b)) })
  finish :
      (c cur b : ℕ)
      → s.collector c ≡ reclaiming cur b
      → n_bags ≤ b
      → Step s (record s { collector = update s.collector c off })

-- `GLOBAL` at the start, with every allocation in the structure.
abbrev pub init : World
init = record {
  epoch = 0;
  slot = λ _. free_slot;
  hwm = 0;
  bag = λ _. [];
  thread = λ _. absent;
  collector = λ _. off;
  heap = λ _. linked;
  since = λ _. 0;
  met = λ _ _. false;
  holds = λ _ _. false;
}

pub data Reach : World → Type 0 where
  start : Reach init
  later : {s t : World} → Reach s → Step s t → Reach t
