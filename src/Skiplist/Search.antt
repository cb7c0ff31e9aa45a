-- ===== src/Skiplist/Search.antt =====
-- crates/zerokv/src/skiplist.rs: the map itself, and how `find` and `get` search it.
pub mod Gaps
pub mod Walks
pub mod Matches
pub mod Finds
pub mod Gets
use zerokv.Prelude.{
  ℕ, zero, suc, ◌+◌, ◌-◌, Bool, true, false, Option, none, some, List, [], ◌∷◌, ◌==◌, if◌then◌else◌,
}
use zerokv.Index.{Bytes}
use zerokv.Skiplist.Keys.{BoundKey, key_lt, key_eq}
use zerokv.Skiplist.Heap.{Heap, Run, ◌>>=◌, Ref, header, link, cas}

-- What the guard has taken for reclamation: nodes, and cells of values.
pub data Garbage : Type 0 where
  a_node : ℕ → Garbage
  a_value : Bytes → Garbage

pub record SkipList : Type 0 where
  pub head : ℕ
  pub max_level : ℕ
  pub len : ℕ
  pub heap : Heap
  pub retired : List Garbage

-- The arrays `preds` and `succs`, by level. No level passes `max_level`, which is below their size.
abbrev pub Tower : Type 0
Tower = ℕ → ℕ

unfoldable pub at : Tower → ℕ → ℕ → Tower
at t level p = λ l. if l == level then p else t l

abbrev pub nulls : Tower
nulls = λ _. 0

-- The key of a node compared with the target.
unfoldable pub precedes : Heap → ℕ → Bytes → Run Bool
precedes h p key = do n ← header h p; Run.ok (key_lt n.key key)

unfoldable pub matches : Heap → ℕ → Bytes → Run Bool
matches h p key = do n ← header h p; Run.ok (key_eq n.key key)

-- Splices out a run of marked successors: where it stops, and what follows.
pub splice : ℕ → Heap → ℕ → ℕ → ℕ → Run (ℕ × ℕ × Heap)
splice zero h level pred curr = Run.out_of_fuel
splice (suc f) h level pred curr = do
  s ← link h curr level
  elim s.1 [
    | false ↦ Run.ok (curr, s.0, h)
    | true ↦ do
      c ← cas h pred level (curr, false) (s.0, false)
      elim c.0 [ true ↦ splice f c.1 level pred s.0 | false ↦ Run.changed c.1 ]
  ]

-- One level of `find`, to the predecessor and the successor of the key there.
pub walk : ℕ → Heap → Bytes → ℕ → ℕ → ℕ → Run (ℕ × ℕ × Heap)
walk zero h key level pred curr = Run.out_of_fuel
walk (suc f) h key level pred curr = do
  r ← splice f h level pred curr
  before ← precedes r.2 r.0 key
  elim before [ true ↦ walk f r.2 key level r.0 r.1 | false ↦ Run.ok (pred, r.0, r.2) ]

pub record Found : Type 0 where
  pub preds : Tower
  pub succs : Tower
  pub heap : Heap

-- The levels below `n`, from the top.
pub descend : ℕ → ℕ → Heap → Bytes → ℕ → Tower → Tower → Run Found
descend f zero h key pred preds succs = Run.ok (record { preds = preds; succs = succs; heap = h })
descend f (suc level) h key pred preds succs = do
  l ← link h pred level
  w ← walk f h key level pred l.0
  descend f level w.2 key w.0 (at preds level w.0) (at succs level w.1)

pub retry_find : ℕ → ℕ → SkipList → Heap → Bytes → Tower → Tower → Run Found
retry_find f zero s h key preds succs = Run.out_of_fuel
retry_find f (suc tries) s h key preds succs =
    elim (descend f (suc s.max_level) h key s.head preds succs) [
      | Run.ok r ↦ Run.ok r
      | Run.changed h' ↦ retry_find f tries s h' key preds succs
      | Run.fault ↦ Run.fault
      | Run.out_of_fuel ↦ Run.out_of_fuel
    ]

-- `find`, in the heap `h`: whether the key is there, and the last arrays.
unfoldable pub find : ℕ → SkipList → Heap → Bytes → Tower → Tower → Run (Bool × Found)
find f s h key preds succs = do
  r ← retry_find f f s h key preds succs
  found ← matches r.heap (r.succs 0) key
  Run.ok (found, r)

-- `get` passes over marked nodes and writes nothing.
pub skip : ℕ → Heap → ℕ → ℕ → Run (ℕ × ℕ)
skip zero h level curr = Run.out_of_fuel
skip (suc f) h level curr = do
  s ← link h curr level
  elim s.1 [ false ↦ Run.ok (curr, s.0) | true ↦ skip f h level s.0 ]

pub seek : ℕ → Heap → Bytes → ℕ → ℕ → ℕ → Run (ℕ × ℕ)
seek zero h key level pred curr = Run.out_of_fuel
seek (suc f) h key level pred curr = do
  r ← skip f h level curr
  before ← precedes h r.0 key
  elim before [ true ↦ seek f h key level r.0 r.1 | false ↦ Run.ok (pred, r.0) ]

unfoldable pub value_of : Heap → ℕ → Run (Option Bytes)
value_of h p = do n ← header h p; Run.ok n.value

-- What `get` answers at the node where level 0 ended.
pub answer : Heap → Bytes → ℕ → Run (Option Bytes)
answer h key curr = do
  here ← matches h curr key
  elim here [
    | false ↦ Run.ok none
    | true ↦ do l ← link h curr 0; elim l.1 [ true ↦ Run.ok none | false ↦ value_of h curr ]
  ]

pub get_levels : ℕ → ℕ → Heap → Bytes → ℕ → Run (Option Bytes)
get_levels f zero h key pred = do l ← link h pred 0; w ← seek f h key 0 pred l.0; answer h key w.1
get_levels f (suc level) h key pred = do
  l ← link h pred (suc level)
  w ← seek f h key (suc level) pred l.0
  get_levels f level h key w.0

pub get : ℕ → SkipList → Bytes → Run (Option Bytes)
get f s key = get_levels f s.max_level s.heap key s.head
