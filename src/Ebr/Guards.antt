-- ===== src/Ebr/Guards.antt =====
-- Registration and guards: which slot a thread gets, what a guard publishes, and two guards of one
-- thread.
use zerokv.Prelude.{
  ℕ, zero, suc, ◌-◌, ◌≤◌, ◌<◌, false, Bool-cases, none, some, List, [], ◌∷◌, get_elem?, set, length,
  max, ◌⊎◌, refl, ◌≡◌, ◌≢◌, inl, inr, arith, ◌==◌, get_elem?-set_self, get_elem?-set_ne, length-set,
  Option-cases, ap,
}
use zerokv.Ebr.{Domain, free_slot, unpinned, probe, local_slot, pin, drop_guard}
use zerokv.Ebr.Epochs.{IsQuiet}

-- The probe finds the first free slot.
record IsFirstFree (slots : List ℕ) (base i : ℕ) : Type 0 where
  above : base ≤ i
  free : get_elem? slots (i - base) ≡ some free_slot
  taken : (j v : ℕ) → j < i - base → get_elem? slots j ≡ some v → v ≢ free_slot

taken_before :
    (v : ℕ) (vs : List ℕ) (n : ℕ)
    → v == free_slot ≡ false
    → ((j w : ℕ) → j < n → get_elem? vs j ≡ some w → w ≢ free_slot)
    → (j w : ℕ) → j < suc n
    → get_elem? (v ∷ vs) j ≡ some w
    → w ≢ free_slot
taken_before v vs n miss old zero w lt e = ground (arith, e)
taken_before v vs n miss old (suc j) w lt e = old j w (omega arith) e

probe-IsFirstFree :
    (slots : List ℕ) (base i : ℕ) → probe slots base ≡ some i → IsFirstFree slots base i
unfolding probe
probe-IsFirstFree [] base i e = cc
probe-IsFirstFree (v ∷ vs) base i e = elim (Bool-cases (v == free_slot)) [
  | inl hit ↦
      let same : base ≡ i = ground (arith, e) in
      record {
        above = omega arith;
        free = rw (← same) (ground (arith, e));
        taken = λ j w lt. absurd (omega arith);
      }
  | inr miss ↦
      let rest : probe vs (suc base) ≡ some i = rw miss at e in
      let f = probe-IsFirstFree vs (suc base) i rest in
      let shift : i - base ≡ suc (i - suc base) = omega (arith, f.above) in
      record {
        above = omega (arith, f.above);
        free = rw shift f.free;
        taken = rw shift (taken_before v vs (i - suc base) miss f.taken);
      }
]

all_taken :
    (x : ℕ) (xs : List ℕ)
    → x == free_slot ≡ false
    → ((j v : ℕ) → get_elem? xs j ≡ some v → v ≢ free_slot)
    → (j v : ℕ) → get_elem? (x ∷ xs) j ≡ some v
    → v ≢ free_slot
all_taken x xs miss rest zero v e = ground (arith, e)
all_taken x xs miss rest (suc j) v e = rest j v e

probe-none :
    (slots : List ℕ) (base : ℕ)
    → probe slots base ≡ none
    → (j v : ℕ) → get_elem? slots j ≡ some v
    → v ≢ free_slot
unfolding probe
probe-none [] base e = λ j v q. cc
probe-none (x ∷ xs) base e = elim (Bool-cases (x == free_slot)) [
  | inl hit ↦ absurd (found (rw hit at e))
  | inr miss ↦ all_taken x xs miss (probe-none xs (suc base) (rw miss at e))
]
  where
    found : some base ≢ none
    found b = cc

-- A thread without a slot: either no slot is free, and there is none for it; or it gets the first
-- free one, which it marks as claimed, the high-water mark is raised to cover it, and nothing else
-- of the domain changes.
pub local_slot-claims :
    (d : Domain)
    → ((local_slot d none ≡ none) × ((j v : ℕ) → get_elem? d.slots j ≡ some v → v ≢ free_slot))
      ⊎ ((i : ℕ) × (get_elem? d.slots i ≡ some free_slot)
          × ((j v : ℕ) → j < i → get_elem? d.slots j ≡ some v → v ≢ free_slot)
          × (local_slot d none
              ≡ some (i, record d { slots = set d.slots i unpinned; hwm = max d.hwm i })))
unfolding local_slot
local_slot-claims d = elim (Option-cases (probe d.slots 0)) [
  | inl full ↦ inl (rw (local_slot, full) refl, probe-none d.slots 0 full)
  | inr (i, found) ↦
      let first = probe-IsFirstFree d.slots 0 i found in
      let plain : i - 0 ≡ i = omega arith in
      inr (i, rw plain at first.free, rw plain at first.taken, rw (local_slot, found) refl)
]

slots-drop_guard :
    (idx tick : ℕ) (d : Domain) → (drop_guard idx tick d).2.slots ≡ set d.slots idx unpinned
unfolding drop_guard
slots-drop_guard idx tick d = ground arith

slots-pin :
    (d d' : Domain) (idx : ℕ)
    → pin d (some idx) ≡ some (idx, d')
    → d'.slots ≡ set d.slots idx d.epoch
unfolding pin
slots-pin d d' idx e = ground arith

module _ (d : Domain) (idx : ℕ) (within : idx < length d.slots) where
  pin-slot :
      (d' : Domain)
      → pin d (some idx) ≡ some (idx, d')
      → (get_elem? d'.slots idx ≡ some d.epoch)
        × ((j : ℕ) → idx ≢ j → get_elem? d'.slots j ≡ get_elem? d.slots j)
  pin-slot d' e = rw (slots-pin d d' idx e) (
    get_elem?-set_self d.slots idx d.epoch within,
    λ j ne. get_elem?-set_ne d.slots idx j d.epoch ne,
  )

  -- The slot of a thread that drops a guard no longer holds any epoch back, whether or not the
  -- thread has another guard: after two `pin`s and one drop the slot reads `UNPINNED`.
  pub nested_guard_unpins :
      (outer inner : Domain) (tick : ℕ)
      → pin d (some idx) ≡ some (idx, outer)
      → pin outer (some idx) ≡ some (idx, inner)
      → let after = (drop_guard idx tick inner).2 in
        (get_elem? outer.slots idx ≡ some d.epoch)
        × (get_elem? after.slots idx ≡ some unpinned)
        × ((g v : ℕ) → get_elem? after.slots idx ≡ some v → IsQuiet g v)
  nested_guard_unpins outer inner tick e f =
      let room : idx < length inner.slots = omega (
        arith,
        ap length (slots-pin outer inner idx f),
        length-set outer.slots idx outer.epoch,
        ap length (slots-pin d outer idx e),
        length-set d.slots idx d.epoch,
      ) in
      let cleared = get_elem?-set_self inner.slots idx unpinned room in
      ((pin-slot outer e).0, rw slots-drop_guard cleared, λ g v q. inr (inl (value g v q cleared)))
    where
      value :
          (g v : ℕ)
          → get_elem? (drop_guard idx tick inner).2.slots idx ≡ some v
          → get_elem? (set inner.slots idx unpinned) idx ≡ some unpinned
          → v ≡ unpinned
      value g v q cleared = cc (q, cleared, slots-drop_guard idx tick inner)
