-- ===== src/Mesh/Delivery.antt =====
-- A put that is taken into hand, inserted and counted keeps what holds of the mesh.
use mathlib.Core.List.{append_assoc}
use zerokv.Prelude.{
  ℕ, suc, ◌+◌, ◌<◌, ◌≡◌, ◌≢◌, ◌⊎◌, sym, ap, ◌∙◌, subst, Option, some, List, [], ◌∷◌, ◌++◌, length,
  arith, ◌==◌, if◌then◌else◌, ==_refl, ==_ne, ==_iff, Bool-cases, inl, inr, true, false,
}
use zerokv.Arena.Kv.{slice_eq}
use zerokv.Index.{Bytes}
use zerokv.Mesh.{
  Item, Applying, nothing, taken, inserted, Row, World, upd, insert_in, apply, set_row,
}
use zerokv.Mesh.Sums.{sum, sum-le, sum_change, upd_same, upd_other, upd-all}
use zerokv.Mesh.Flow.{
  in_hand, load, mine, from, replay, pending, weight, flag, Seen, RowOk, Inv, total, flags,
}

pub same_or_not : (a b : ℕ) → (a ≡ b) ⊎ (a ≢ b)
same_or_not a b = elim (Bool-cases (a == b)) [
  | inl e ↦ inl ((==_iff a b).0 e)
  | inr e ↦ inr (λ same. true-false (sym ((==_iff a b).1 same) ∙ e))
]
  where
    true-false : true ≢ false
    true-false b = cc

module _ {n mask : ℕ} {work : ℕ → List Item} {s : World} (inv : Inv n mask work s) where
  abbrev Flows : (ℕ → List (ℕ × Item)) → (ℕ → Applying) → (ℕ → Row) → ℕ → ℕ → Type 0
  Flows orders hands rows k j =
      from k (orders j) ++ (in_hand k (hands j) ++ pending mask j (rows k)) ≡ mine mask j (work k)

  -- What one worker is applying changes.
  load_total :
      (dst : ℕ) (a : Applying)
      → dst < n
      → sum n (λ k. load (upd s.applying dst a k)) + load (s.applying dst)
        ≡ sum n (λ k. load (s.applying k)) + load a
  load_total dst a lt =
      subst
        (λ w.
          sum n (λ k. load (upd s.applying dst a k)) + load (s.applying dst)
          ≡ sum n (λ k. load (s.applying k)) + load w)
        (upd_same s.applying dst a)
        (sum_change n (λ k. load (upd s.applying dst a k)) (λ k. load (s.applying k)) dst lt
          (λ j ne. ap load (upd_other s.applying dst a j ne)))

  -- A put of `src` comes into the hand of `dst`: the first that the row owed to it.
  module _ (src dst : ℕ) (item : Item) (r : Row) (sent' : ℕ) (lt : src < n) (lt' : dst < n)
      (idle : s.applying dst ≡ nothing) where
    abbrev hands' : ℕ → Applying
    hands' = upd s.applying dst (taken src item)

    abbrev rows' : ℕ → Row
    rows' = upd s.row src r

    taken-Flows :
        item ∷ pending mask dst r ≡ pending mask dst (s.row src)
        → ((j : ℕ) → j ≢ dst → pending mask j r ≡ pending mask j (s.row src))
        → (k j : ℕ) → Flows s.order hands' rows' k j
    taken-Flows first others k j = elim (same_or_not dst j) [
      | inl here ↦ subst (Flows s.order hands' rows' k) here (elim (same_or_not src k) [
        | inl mine_too ↦
            subst (λ i. Flows s.order hands' rows' i dst) mine_too
              (rw (upd_same s.applying dst (taken src item), upd_same s.row src r, ==_refl src)
                (ap (λ l. from src (s.order dst) ++ l) first ∙ rw idle at (inv.flow src dst)))
        | inr ne ↦
            rw
              (
                upd_same s.applying dst (taken src item),
                upd_other s.row src r k (λ e. ne (sym e)),
                ==_ne src k ne,
              )
              (rw idle at (inv.flow k dst))
      ])
      | inr away ↦
          rw (upd_other s.applying dst (taken src item) j (λ e. away (sym e)))
            (elim (same_or_not src k) [
              | inl mine_too ↦
                  subst (λ i. Flows s.order s.applying rows' i j) mine_too
                    (rw (upd_same s.row src r) (
                      ap (λ l. from src (s.order j) ++ (in_hand src (s.applying j) ++ l))
                        (others j (λ e. away (sym e)))
                      ∙ inv.flow src j))
              | inr ne ↦ rw (upd_other s.row src r k (λ e. ne (sym e))) (inv.flow k j)
            ])
    ]

    pub take-Inv :
        RowOk n mask src r
        → item ∷ pending mask dst r ≡ pending mask dst (s.row src)
        → ((j : ℕ) → j ≢ dst → pending mask j r ≡ pending mask j (s.row src))
        → sent' + weight n (s.row src) ≡ suc s.sent + weight n r
        → flag r.pc ≡ flag (s.row src).pc
        → ((k : ℕ) → Seen n s.phase1_done sent' s.applied (s.row k).pc)
        → Seen n s.phase1_done sent' s.applied r.pc
        → Inv n mask work (record (set_row s src r) { applying = hands'; sent = sent' })
    take-Inv ok first others counted flagged seen seen_i = record {
      rows = upd-all (λ k w. RowOk n mask k w) s.row src r inv.rows ok;
      flow = taken-Flows first others;
      stored = inv.stored;
      counts = omega (
        arith,
        inv.counts,
        counted,
        total inv src r lt 0 0,
        load_total dst (taken src item) lt',
        ap load idle,
      );
      phases = omega (arith, inv.phases, flagged, flags inv src r lt 0 0);
      seen =
          upd-all (λ k (w : Row). Seen n s.phase1_done sent' s.applied w.pc) s.row src r seen
            seen_i;
    }

  -- The put in hand goes into the shard.
  module _ (src dst : ℕ) (key val : Bytes) (lt : dst < n)
      (held : s.applying dst ≡ taken src (key, val)) where
    abbrev orders : ℕ → List (ℕ × Item)
    orders = upd s.order dst ((src, (key, val)) ∷ s.order dst)

    abbrev after : ℕ → Applying
    after = upd s.applying dst inserted

    insert-Flows : (k j : ℕ) → Flows orders after s.row k j
    insert-Flows k j = elim (same_or_not dst j) [
      | inl here ↦ subst (Flows orders after s.row k) here (elim (same_or_not src k) [
        | inl mine_too ↦
            subst (λ i. Flows orders after s.row i dst) mine_too
              (rw
                (
                  upd_same s.order dst ((src, (key, val)) ∷ s.order dst),
                  upd_same s.applying dst inserted,
                  ==_refl src,
                )
                (append_assoc (from src (s.order dst)) ((key, val) ∷ [])
                    (pending mask dst (s.row src))
                  ∙ rw (held, ==_refl src) at (inv.flow src dst)))
        | inr ne ↦
            rw
              (
                upd_same s.order dst ((src, (key, val)) ∷ s.order dst),
                upd_same s.applying dst inserted,
                ==_ne src k ne,
              )
              (rw (held, ==_ne src k ne) at (inv.flow k dst))
      ])
      | inr away ↦
          rw
            (
              upd_other s.order dst ((src, (key, val)) ∷ s.order dst) j (λ e. away (sym e)),
              upd_other s.applying dst inserted j (λ e. away (sym e)),
            )
            (inv.flow k j)
    ]

    stores :
        (j : ℕ) (q : Bytes)
        → upd s.shard dst (insert_in (s.shard dst) (key, val)) j q ≡ replay (orders j) q
    stores j q = elim (same_or_not dst j) [
      | inl here ↦
          subst
            (λ i. upd s.shard dst (insert_in (s.shard dst) (key, val)) i q ≡ replay (orders i) q)
            here
            (rw (==_refl dst) (
              ap (λ (o : Option Bytes). if slice_eq q key then some val else o) (inv.stored dst q)))
      | inr away ↦ rw (==_ne dst j away) (inv.stored j q)
    ]

    pub insert-Inv : Inv n mask work (apply s src dst (key, val))
    insert-Inv = record {
      rows = inv.rows;
      flow = insert-Flows;
      stored = stores;
      counts = omega (arith, inv.counts, load_total dst inserted lt, ap load held);
      phases = inv.phases;
      seen = inv.seen;
    }

  -- The put that is in the shard is counted.
  module _ (dst : ℕ) (lt : dst < n) (held : s.applying dst ≡ inserted) where
    count-Flows : (k j : ℕ) → Flows s.order (upd s.applying dst nothing) s.row k j
    count-Flows k j = elim (same_or_not dst j) [
      | inl here ↦
          subst (Flows s.order (upd s.applying dst nothing) s.row k) here
            (rw (upd_same s.applying dst nothing) (rw held at (inv.flow k dst)))
      | inr away ↦ rw (upd_other s.applying dst nothing j (λ e. away (sym e))) (inv.flow k j)
    ]

    pub under_way : s.applied < s.sent
    under_way = omega (arith, inv.counts, sum-le n (λ j. load (s.applying j)) dst lt, ap load held)

    pub count-Inv :
        ((k : ℕ) → Seen n s.phase1_done s.sent (suc s.applied) (s.row k).pc)
        → Inv n mask work
            (record s { applying = upd s.applying dst nothing; applied = suc s.applied })
    count-Inv seen = record {
      rows = inv.rows;
      flow = count-Flows;
      stored = inv.stored;
      counts = omega (arith, inv.counts, load_total dst nothing lt, ap load held);
      phases = inv.phases;
      seen = seen;
    }

-- A queue that grows or shrinks at `dst` only.
pub queue_sum :
    (n dst : ℕ) (queue : ℕ → List Item) (l : List Item)
    → dst < n
    → sum n (λ j. length (upd queue dst l j)) + length (queue dst)
      ≡ sum n (λ j. length (queue j)) + length l
queue_sum n dst queue l lt =
    subst
      (λ (w : List Item).
        sum n (λ j. length (upd queue dst l j)) + length (queue dst)
        ≡ sum n (λ j. length (queue j)) + length w)
      (upd_same queue dst l)
      (sum_change n (λ j. length (upd queue dst l j)) (λ j. length (queue j)) dst lt
        (λ j ne. ap length (upd_other queue dst l j ne)))
