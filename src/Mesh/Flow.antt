-- ===== src/Mesh/Flow.antt =====
-- What holds of the mesh after every step.
use zerokv.Prelude.{
  ℕ, ◌+◌, ◌≤◌, ◌<◌, ◌≡◌, ◌≢◌, ap, ◌∙◌, subst, none, List, [], ◌∷◌, ◌++◌, length, arith, ◌==◌,
  if◌then◌else◌,
}
use zerokv.Index.{Bytes, route}
use zerokv.Mesh.{
  Item, Pc, producing, sending, quiescing, saw_done, saw_sent, exited, Applying, nothing, taken,
  inserted, Row, World, upd, Shard, insert_in, set_row,
}
use zerokv.Mesh.Sums.{sum, sum_change, sum_lt_count, upd_same, upd_other, upd-all}

-- The items of a workload that belong to shard `j`.
abbrev pub mine : ℕ → ℕ → List Item → List Item
mine mask j [] = []
mine mask j ((key, val) ∷ items) =
    let rest = mine mask j items in if route mask key == j then (key, val) ∷ rest else rest

-- The puts of worker `i` that a shard has taken in, the oldest first.
abbrev pub from : ℕ → List (ℕ × Item) → List Item
from i [] = []
from i ((src, item) ∷ order) =
    let rest = from i order in if src == i then rest ++ item ∷ [] else rest

-- What a shard holds after its puts, the newest first.
abbrev pub replay : List (ℕ × Item) → Shard
replay [] = λ _. none
replay ((src, item) ∷ order) = insert_in (replay order) item

-- The put of worker `i` that a worker has in hand for its own shard.
abbrev pub in_hand : ℕ → Applying → List Item
in_hand i nothing = []
in_hand i (taken src item) = if src == i then item ∷ [] else []
in_hand i inserted = []

-- The commands that a worker is applying.
abbrev pub load : Applying → ℕ
load nothing = 0
load (taken src item) = 1
load inserted = 1

abbrev pub hand : Pc → ℕ → List Item
hand producing j = []
hand (sending key val dst) j = if dst == j then (key, val) ∷ [] else []
hand quiescing j = []
hand saw_done j = []
hand (saw_sent m) j = []
hand exited j = []

-- What of the row is still to come to shard `j`.
abbrev pub pending : ℕ → ℕ → Row → List Item
pending mask j r = r.queue j ++ (hand r.pc j ++ mine mask j r.items)

abbrev pub hands : Pc → ℕ
hands producing = 0
hands (sending key val dst) = 1
hands quiescing = 0
hands saw_done = 0
hands (saw_sent m) = 0
hands exited = 0

-- The commands of the row that are under way.
abbrev pub weight : ℕ → Row → ℕ
weight n r = hands r.pc + sum n (λ j. length (r.queue j))

abbrev pub flag : Pc → ℕ
flag producing = 0
flag (sending key val dst) = 0
flag quiescing = 1
flag saw_done = 1
flag (saw_sent m) = 1
flag exited = 1

abbrev pub PcOk : ℕ → ℕ → ℕ → Pc → Type 0
PcOk n mask i producing = Unit
PcOk n mask i (sending key val dst) = (dst < n) × (dst ≢ i)
PcOk n mask i quiescing = Unit
PcOk n mask i saw_done = Unit
PcOk n mask i (saw_sent m) = Unit
PcOk n mask i exited = Unit

-- What a worker that has seen the others done may rely on.
abbrev pub Seen : ℕ → ℕ → ℕ → ℕ → Pc → Type 0
Seen n done sent applied producing = Unit
Seen n done sent applied (sending key val dst) = Unit
Seen n done sent applied quiescing = Unit
Seen n done sent applied saw_done = done ≡ n
Seen n done sent applied (saw_sent m) = (done ≡ n) × (m ≡ sent)
Seen n done sent applied exited = (done ≡ n) × (sent ≡ applied)

pub record RowOk (n mask i : ℕ) (r : Row) : Type 0 where
  pub pcs : PcOk n mask i r.pc
  pub self : r.queue i ≡ []
  pub ended : flag r.pc ≡ 1 → r.items ≡ []

pub record Inv (n mask : ℕ) (work : ℕ → List Item) (s : World) : Type 0 where
  pub rows : (i : ℕ) → RowOk n mask i (s.row i)
  pub flow :
      (i j : ℕ)
      → from i (s.order j) ++ (in_hand i (s.applying j) ++ pending mask j (s.row i))
        ≡ mine mask j (work i)
  pub stored : (j : ℕ) (q : Bytes) → s.shard j q ≡ replay (s.order j) q
  pub counts :
      s.sent ≡ s.applied + sum n (λ i. weight n (s.row i)) + sum n (λ i. load (s.applying i))
  pub phases : s.phase1_done ≡ sum n (λ i. flag (s.row i).pc)
  pub seen : (i : ℕ) → Seen n s.phase1_done s.sent s.applied (s.row i).pc

-- While a worker is not done, nobody has seen all of them done.
pub Seen-early :
    (n done done' sent sent' applied applied' : ℕ) (p : Pc)
    → done < n
    → Seen n done sent applied p
    → Seen n done' sent' applied' p
Seen-early n done done' sent sent' applied applied' producing lt h = tt
Seen-early n done done' sent sent' applied applied' (sending key val dst) lt h = tt
Seen-early n done done' sent sent' applied applied' quiescing lt h = tt
Seen-early n done done' sent sent' applied applied' saw_done lt h = absurd (omega arith)
Seen-early n done done' sent sent' applied applied' (saw_sent m) lt h = absurd (omega (arith, h.0))
Seen-early n done done' sent sent' applied applied' exited lt h = absurd (omega (arith, h.0))

flag_le : (p : Pc) → flag p ≤ 1
flag_le producing = omega arith
flag_le (sending key val dst) = omega arith
flag_le quiescing = omega arith
flag_le saw_done = omega arith
flag_le (saw_sent m) = omega arith
flag_le exited = omega arith

module _ {n mask : ℕ} {work : ℕ → List Item} {s : World} (inv : Inv n mask work s) where
  pub busy : (i : ℕ) → i < n → flag (s.row i).pc ≡ 0 → s.phase1_done < n
  busy i lt e = omega (
    arith,
    inv.phases,
    sum_lt_count n (λ k. flag (s.row k).pc) i (λ k. flag_le (s.row k).pc) lt e,
  )

  -- One row changes, what it owes to each shard stays.
  module _ (i : ℕ) (r : Row) (lt : i < n) (sent' done' : ℕ) where
    pub total :
        sum n (λ k. weight n (upd s.row i r k)) + weight n (s.row i)
        ≡ sum n (λ k. weight n (s.row k)) + weight n r
    total =
        subst
          (λ w.
            sum n (λ k. weight n (upd s.row i r k)) + weight n (s.row i)
            ≡ sum n (λ k. weight n (s.row k)) + weight n w)
          (upd_same s.row i r)
          (sum_change n (λ k. weight n (upd s.row i r k)) (λ k. weight n (s.row k)) i lt
            (λ j ne. ap (weight n) (upd_other s.row i r j ne)))

    pub flags :
        sum n (λ k. flag (upd s.row i r k).pc) + flag (s.row i).pc
        ≡ sum n (λ k. flag (s.row k).pc) + flag r.pc
    flags =
        subst
          (λ (w : Row).
            sum n (λ k. flag (upd s.row i r k).pc) + flag (s.row i).pc
            ≡ sum n (λ k. flag (s.row k).pc) + flag w.pc)
          (upd_same s.row i r)
          (sum_change n (λ k. flag (upd s.row i r k).pc) (λ k. flag (s.row k).pc) i lt
            (λ j ne. ap (λ (w : Row). flag w.pc) (upd_other s.row i r j ne)))

    pub row-Inv :
        RowOk n mask i r
        → ((j : ℕ) → pending mask j r ≡ pending mask j (s.row i))
        → sent' + weight n (s.row i) ≡ s.sent + weight n r
        → done' + flag (s.row i).pc ≡ s.phase1_done + flag r.pc
        → ((k : ℕ) → Seen n done' sent' s.applied (s.row k).pc)
        → Seen n done' sent' s.applied r.pc
        → Inv n mask work (record (set_row s i r) { sent = sent'; phase1_done = done' })
    row-Inv ok same counted flagged seen seen_i = record {
      rows = upd-all (λ k w. RowOk n mask k w) s.row i r inv.rows ok;
      flow =
          upd-all
            (λ k w.
              (j : ℕ)
              → from k (s.order j) ++ (in_hand k (s.applying j) ++ pending mask j w)
                ≡ mine mask j (work k))
            s.row i r inv.flow
            (λ j.
              ap (λ l. from i (s.order j) ++ (in_hand i (s.applying j) ++ l)) (same j)
              ∙ inv.flow i j);
      stored = inv.stored;
      counts = omega (arith, inv.counts, counted, total);
      phases = omega (arith, inv.phases, flagged, flags);
      seen = upd-all (λ k (w : Row). Seen n done' sent' s.applied w.pc) s.row i r seen seen_i;
    }
