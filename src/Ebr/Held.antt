-- ===== src/Ebr/Held.antt =====
-- A guard and the calls of others while it is held: what it keeps from being freed.
use zerokv.Prelude.{
  ℕ, zero, suc, ◌+◌, ◌≤◌, ◌<◌, ◌≡◌, ◌≢◌, refl, ap, ◌∙◌, max, none, some, Option, List, [], ◌∷◌,
  ◌++◌, get_elem?, set, length, length-set, get_elem?-set_self, All, All-append, arith, subst, inl,
  inr,
}
use zerokv.Ebr.{Retired, Domain, n_slots, free_slot, unpinned, local_slot, pin, retire, try_collect}
use zerokv.Ebr.Epochs.{scanned, try_collect-epoch, try_collect-bags}
use zerokv.Ebr.Guards.{local_slot-claims}

-- What others do while a guard is held, as far as it bears on the epoch and the bags.
pub data Event : Type 0 where
  collect : Event
  retiring : (ptr drop_fn : ℕ) → Event

-- The records freed by the events, and the domain after them.
abbrev pub events : List Event → Domain → List Retired × Domain
events [] d = ([], d)
events (collect ∷ es) d =
    let (freed, d') = try_collect d in let (more, last) = events es d' in (freed ++ more, last)
events (retiring ptr drop_fn ∷ es) d = events es (retire d ptr drop_fn)

-- A domain of `n_slots` slots below the highest epoch, where a thread that has a slot already has
-- one of those that the collector scans.
pub record IsDomain (d : Domain) (cached : Option ℕ) : Type 0 where
  pub sized : length d.slots ≡ n_slots
  pub low : d.epoch < unpinned
  pub covered : (i : ℕ) → cached ≡ some i → (i < n_slots) × (i ≤ d.hwm)

-- The slot `idx` holds the epoch `e`, which the collector sees.
record Holds (idx e : ℕ) (d : Domain) : Type 0 where
  slot : get_elem? d.slots idx ≡ some e
  seen : idx < scanned d
  past : e ≤ d.epoch
  near : d.epoch ≤ e + 1

within : (xs : List ℕ) (i v : ℕ) → get_elem? xs i ≡ some v → i < length xs
within [] i v e = cc
within (x ∷ xs) zero v e = omega arith
within (x ∷ xs) (suc i) v e = omega (arith, within xs i v e)

pin_claimed :
    (d : Domain) (cached : Option ℕ) (i idx : ℕ) (c d' : Domain)
    → local_slot d cached ≡ some (i, c)
    → pin d cached ≡ some (idx, d')
    → (i ≡ idx) × (record c { slots = set c.slots i c.epoch } ≡ d')
unfolding pin
pin_claimed d cached i idx c d' e h = ground (arith, e, h)

pin_refused :
    (d : Domain) (cached : Option ℕ) (idx : ℕ) (d' : Domain)
    → local_slot d cached ≡ none
    → pin d cached ≢ some (idx, d')
unfolding pin
pin_refused d cached idx d' e h = ground (arith, e, h)

published-Holds :
    (d : Domain) (i : ℕ)
    → i < length d.slots
    → i < n_slots
    → i ≤ d.hwm
    → Holds i d.epoch (record d { slots = set d.slots i d.epoch })
published-Holds d i room lt le = record {
  slot = get_elem?-set_self d.slots i d.epoch room;
  seen = omega arith;
  past = omega arith;
  near = omega arith;
}

pin-Holds :
    (d : Domain) (cached : Option ℕ) (idx : ℕ) (d' : Domain)
    → IsDomain d cached
    → pin d cached ≡ some (idx, d')
    → Holds idx d.epoch d'
unfolding local_slot
pin-Holds d none idx d' is e = elim (local_slot-claims d) [
  | inl (full, taken) ↦ absurd (pin_refused d none idx d' full e)
  | inr (i, free, taken, got) ↦
      let c = record d { slots = set d.slots i unpinned; hwm = max d.hwm i } in
      let (same, after) = pin_claimed d none i idx c d' got e in
      let room = within d.slots i free_slot free in
      subst (λ k. Holds k d.epoch d') same
        (subst (Holds i d.epoch) after (
          published-Holds c i (omega (arith, room, length-set d.slots i unpinned))
            (omega (arith, room, is.sized)) (omega arith)))
]
pin-Holds d (some i) idx d' is e =
    let (lt, le) = is.covered i refl in
    let (same, after) = pin_claimed d (some i) i idx d d' refl e in
    subst (λ k. Holds k d.epoch d') same
      (subst (Holds i d.epoch) after (published-Holds d i (omega (arith, lt, is.sized)) lt le))

All-imp :
    {P Q : Retired → Type 0}
    → ((r : Retired) → P r → Q r)
    → (rs : List Retired) → All P rs
    → All Q rs
All-imp f [] h = tt
All-imp f (r ∷ rs) h = (f r h.0, All-imp f rs h.1)

module _ (idx e : ℕ) (low : e < unpinned) where
  collect-near : (d : Domain) → Holds idx e d → (try_collect d).1.epoch ≤ e + 1
  collect-near d h =
      let (adv, moved, slots, hwm) = try_collect-epoch d in
      elim moved [
        | inl same ↦ omega (arith, same, h.near)
        | inr up ↦ elim (adv.0 up idx e h.seen h.slot) [
          | inl free ↦ absurd (omega (arith, low, free))
          | inr (inl out) ↦ absurd (omega (arith, low, out))
          | inr (inr same) ↦ omega (arith, up, same)
        ]
      ]

  collect-Holds :
      (d : Domain)
      → Holds idx e d
      → Holds idx e (try_collect d).1 × All (λ r. r.epoch < e) (try_collect d).0
  collect-Holds d h =
      let (adv, moved, slots, hwm) = try_collect-epoch d in
      let near = collect-near d h in
      let (freed, kept, old) = try_collect-bags d (omega (arith, near, low)) in
      (
        record {
          slot = ap (λ xs. get_elem? xs idx) slots ∙ h.slot;
          seen = omega (arith, h.seen, hwm);
          past = elim moved [
            | inl same ↦ omega (arith, same, h.past)
            | inr up ↦ omega (arith, up, h.past)
          ];
          near = near;
        },
        All-imp (λ r o. omega (arith, o, near)) (try_collect d).0 old,
      )

  retire-Holds : (d : Domain) (ptr drop_fn : ℕ) → Holds idx e d → Holds idx e (retire d ptr drop_fn)
  unfolding retire
  retire-Holds d ptr drop_fn h = record {
    slot = h.slot;
    seen = h.seen;
    past = h.past;
    near = h.near;
  }

  events-Holds :
      (es : List Event) (d : Domain)
      → Holds idx e d
      → Holds idx e (events es d).1 × All (λ r. r.epoch < e) (events es d).0
  events-Holds [] d h = (h, tt)
  events-Holds (collect ∷ es) d h =
      let (h', old) = collect-Holds d h in
      let (last, more) = events-Holds es (try_collect d).1 h' in
      (last, All-append _ (try_collect d).0 (events es (try_collect d).1).0 old more)
  events-Holds (retiring ptr drop_fn ∷ es) d h =
      events-Holds es (retire d ptr drop_fn) (retire-Holds d ptr drop_fn h)

-- On a domain of `n_slots` slots whose epoch is below 2^62, a thread pins, with a slot that it has and
-- that the collector scans, or with the first that is free; while it holds the guard, others retire
-- and collect in any order. Then its slot still holds the
-- epoch `e` of the pin, the domain's epoch is `e` or `e + 1`, and each record that was freed had been
-- retired before epoch `e`.
pub pin-events :
    (d : Domain) (cached : Option ℕ) (idx : ℕ) (d' : Domain) (es : List Event)
    → IsDomain d cached
    → pin d cached ≡ some (idx, d')
    → let (freed, last) = events es d' in
      (get_elem? last.slots idx ≡ some d.epoch)
      × (d.epoch ≤ last.epoch)
      × (last.epoch ≤ d.epoch + 1)
      × All (λ r. r.epoch < d.epoch) freed
pin-events d cached idx d' es is e =
    let (h, old) = events-Holds idx d.epoch is.low es d' (pin-Holds d cached idx d' is e) in
    (h.slot, h.past, h.near, old)
