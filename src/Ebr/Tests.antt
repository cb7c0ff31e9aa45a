-- ===== src/Ebr/Tests.antt =====
-- Runs of the reclamation domain on small inputs, and a schedule of the protocol.
use mathlib.Core.List.{flatten}
use zerokv.Prelude.{
  ℕ, ◌+◌, ◌≤◌, ◌<◌, ◌≡◌, ◌≢◌, ◌⊎◌, ◌↔◌, refl, true, none, some, max, List, [], ◌∷◌, map, filter,
  All, set, get_elem?, arith,
}
use zerokv.Ebr.{
  Retired, Domain, new, local_slot, pin, drop_guard, reclaim_bag, reclaim_bags, can_advance,
  try_collect, eligible, free_slot, unpinned,
}
use zerokv.Ebr.Bags.{young, reclaim_bag_lem}
use zerokv.Ebr.Epochs.{IsQuiet, AllQuiet, scanned, try_collect-epoch, try_collect-bags}
use zerokv.Ebr.Held.{Event, collect, retiring, events, pin-events}
use zerokv.Ebr.Guards.{local_slot-claims, nested_guard_unpins}
use zerokv.Ebr.Protocol.{
  World, Reach, start, later, tagged, freed, claim, raise, pin_load, pin_store, load, unlink, tag,
  push, unpin, begin, scan, pass, scan_done, win, reload, detach, keep,
}
use zerokv.Ebr.Protocol.Safety.{no_use_after_free, epoch-near_guard}

abbrev garbage : ℕ → ℕ → Retired
garbage p e = record { ptr = p; drop_fn = 0; epoch = e }

-- Three retired records at epoch 4, two of them old enough to go.
abbrev littered : Domain
littered = record {
  epoch = 4;
  slots = 4 ∷ unpinned ∷ free_slot ∷ [];
  bags = (garbage 10 3 ∷ []) ∷ (garbage 11 1 ∷ garbage 13 4 ∷ []) ∷ (garbage 12 2 ∷ []) ∷ [];
  hwm = 1;
}

collect_littered : try_collect littered ≡ (
  garbage 10 3 ∷ garbage 11 1 ∷ garbage 12 2 ∷ [],
  record littered { epoch = 5; bags = [] ∷ (garbage 13 4 ∷ []) ∷ [] ∷ [] },
)
unfolding try_collect reclaim_bags can_advance reclaim_bag eligible
collect_littered = refl

reclaim_bag_lem_example : reclaim_bag 4 (garbage 11 1 ∷ garbage 13 4 ∷ []) ≡ (
  filter (eligible 4) (garbage 11 1 ∷ garbage 13 4 ∷ []),
  filter (young 4) (garbage 11 1 ∷ garbage 13 4 ∷ []),
)
reclaim_bag_lem_example = reclaim_bag_lem 4 (garbage 11 1 ∷ garbage 13 4 ∷ [])

try_collect-epoch_example :
    let d' = (try_collect littered).1 in
    ((d'.epoch ≡ 5) ↔ AllQuiet 4 littered.slots (scanned littered))
    × ((d'.epoch ≡ 4) ⊎ (d'.epoch ≡ 5))
    × (d'.slots ≡ littered.slots)
    × (d'.hwm ≡ 1)
try_collect-epoch_example = try_collect-epoch littered

try_collect-bags_example :
    let (dropped, d') = try_collect littered in
    (dropped ≡ filter (eligible d'.epoch) (flatten littered.bags))
    × (d'.bags ≡ map (filter (young d'.epoch)) littered.bags)
    × All (λ r. r.epoch + 2 ≤ d'.epoch) dropped
unfolding try_collect can_advance
try_collect-bags_example = try_collect-bags littered (omega arith)

local_slot-claims_example :
    ((local_slot littered none ≡ none)
      × ((j v : ℕ) → get_elem? littered.slots j ≡ some v → v ≢ free_slot))
    ⊎ ((i : ℕ) × (get_elem? littered.slots i ≡ some free_slot)
        × ((j v : ℕ) → j < i → get_elem? littered.slots j ≡ some v → v ≢ free_slot)
        × (local_slot littered none
            ≡ some (
              i,
              record littered { slots = set littered.slots i unpinned; hwm = max littered.hwm i },
            )))
local_slot-claims_example = local_slot-claims littered

claim_littered :
    local_slot littered none
    ≡ some (2, record littered { slots = 4 ∷ unpinned ∷ unpinned ∷ []; hwm = 2 })
unfolding local_slot
claim_littered = refl

-- The domain after the thread of slot 1 has taken a guard, once or twice.
abbrev guarded : Domain
guarded = record littered { slots = 4 ∷ 4 ∷ free_slot ∷ [] }

-- The first thread pins; two others retire and collect.
abbrev pinned : Domain
pinned = record new { slots = set (set new.slots 0 unpinned) 0 0 }

abbrev others : List Event
others = collect ∷ retiring 10 0 ∷ collect ∷ collect ∷ []

pin-events_example :
    let (dropped, last) = events others pinned in
    (get_elem? last.slots 0 ≡ some 0)
    × (0 ≤ last.epoch)
    × (last.epoch ≤ 0 + 1)
    × All (λ r. r.epoch < 0) dropped
unfolding pin new
pin-events_example =
    pin-events new none 0 pinned others
      (record { sized = refl; low = omega arith; covered = λ i e. cc }) refl

nested_guard_unpins_example :
    let after = (drop_guard 1 0 guarded).2 in
    (get_elem? guarded.slots 1 ≡ some 4)
    × (get_elem? after.slots 1 ≡ some unpinned)
    × ((g v : ℕ) → get_elem? after.slots 1 ≡ some v → IsQuiet g v)
unfolding pin
nested_guard_unpins_example =
    nested_guard_unpins littered 1 (omega arith) guarded guarded 0 refl refl

-- Participant 0 has loaded a reference to allocation 7 under its guard; participant 1 has unlinked
-- and retired 7; a collection has moved the epoch to 1 and has gone through the bag of 7.
abbrev schedule : (s : World) × Reach s
unfolding eligible
schedule = (
  _,
  later
      (later
        (later
          (later
            (later
              (later
                (later
                  (later
                    (later
                      (later
                        (later
                          (later
                            (later
                              (later
                                (later
                                  (later
                                    (later
                                      (later
                                        (later
                                          (later
                                            (later
                                              (later (later start (claim 0 (omega arith) refl refl))
                                                (raise 0 refl))
                                              (pin_load 0 refl))
                                            (pin_store 0 0 refl))
                                          (load 0 7 refl refl))
                                        (claim 1 (omega arith) refl refl))
                                      (raise 1 refl))
                                    (pin_load 1 refl))
                                  (pin_store 1 0 refl))
                                (load 1 7 refl refl))
                              (unlink 1 7 refl refl))
                            (tag 1 7 refl))
                          (push 1 7 0 0 refl))
                        (unpin 1 refl))
                      (begin 0 refl))
                    (scan 0 0 refl))
                  (pass 0 0 1 0 refl (omega arith) refl))
                (pass 0 0 1 1 refl (omega arith) refl))
              (scan_done 0 0 1 2 refl (omega arith)))
            (win 0 0 refl refl))
          (reload 0 refl))
        (detach 0 1 0 refl (omega arith)))
      (keep 0 1 0 (garbage 7 0) [] [] refl refl),
)

schedule_state :
    (schedule.0.epoch ≡ 1) × (schedule.0.heap 7 ≡ tagged 0) × (schedule.0.holds 0 7 ≡ true)
unfolding schedule
schedule_state = (refl, refl, refl)

no_use_after_free_example : schedule.0.heap 7 ≢ freed 0
unfolding schedule
no_use_after_free_example = no_use_after_free 0 7 0 schedule.1 (omega arith) refl

epoch-near_guard_example :
    (schedule.0.slot 0 ≤ schedule.0.since 0)
    × (schedule.0.since 0 ≤ schedule.0.epoch)
    × (schedule.0.epoch ≤ schedule.0.since 0 + 1)
unfolding schedule
epoch-near_guard_example = epoch-near_guard 0 schedule.1 (omega arith) refl
