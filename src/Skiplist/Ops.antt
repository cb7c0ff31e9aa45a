-- ===== src/Skiplist/Ops.antt =====
-- crates/zerokv/src/skiplist.rs: making a map, `insert`, `remove` and `drop`.
pub mod Links
pub mod Joins
pub mod Inserts
pub mod Updates
pub mod Removes
pub mod Starts
pub mod Drops
use zerokv.Prelude.{
  ℕ, zero, suc, ◌+◌, ◌-◌, Bool, true, false, Option, none, some, List, [], ◌∷◌, ◌==◌, min, max,
}
use zerokv.Index.{Bytes}
use zerokv.Backoff.{random_geometric_level}
use zerokv.Skiplist.Keys.{BoundKey, new_key}
use zerokv.Skiplist.Heap.{
  max_height, sentinel, Node, Heap, Run, ◌>>=◌, header, link, store, cas, attempt_mark, put, alloc,
  free_node,
}
use zerokv.Skiplist.Search.{Garbage, SkipList, Tower, nulls, Found, find}

abbrev pub nowhere : Heap
nowhere = record { node = λ _. none; links = λ _ _. (0, false); next = 1 }

-- The levels of the head below `n`, each led straight to the tail.
pub wire : ℕ → Heap → ℕ → ℕ → Run Heap
wire zero h head tail = Run.ok h
wire (suc n) h head tail = do h' ← wire n h head tail; store h' head n (tail, false)

unfoldable pub with_max_level : ℕ → Run SkipList
with_max_level max_level =
    let (head, h) = alloc nowhere (sentinel BoundKey.neg_inf) in
    let (tail, h') = alloc h (sentinel BoundKey.pos_inf) in
    wire max_height h' head tail >>= λ wired.
    Run.ok (record { head = head; max_level = max_level; len = 0; heap = wired; retired = [] })

-- `ceil_log4` is the logarithm, which is taken in floating point, as a whole number.
unfoldable pub with_capacity_hint : (ℕ → ℕ) → ℕ → Run SkipList
with_capacity_hint ceil_log4 expected_items =
    with_max_level (min (max (ceil_log4 (max expected_items 2)) 1) max_height - 1)

-- The level, and the state of the thread's generator after it.
unfoldable pub random_level : ℕ → SkipList → ℕ × ℕ
random_level rng s =
    let (level, rng') = random_geometric_level rng (suc s.max_level) in (level - 1, rng')

-- A fresh node's levels below `n`, pointed at the successors found.
pub point_at : ℕ → Heap → ℕ → Tower → Run Heap
point_at zero h node succs = Run.ok h
point_at (suc n) h node succs = do h' ← point_at n h node succs; store h' node n (succs n, false)

-- One upper level linked, with a new search after each failure.
pub link_level : ℕ → SkipList → Heap → Bytes → ℕ → ℕ → Tower → Tower → Run Found
link_level zero s h key node level preds succs = Run.out_of_fuel
link_level (suc f) s h key node level preds succs = do
  h' ← store h node level (succs level, false)
  c ← cas h' (preds level) level (succs level, false) (node, false)
  elim c.0 [
    | true ↦ Run.ok (record { preds = preds; succs = succs; heap = c.1 })
    | false ↦ do
      r ← find f s c.1 key preds succs
      link_level f s r.1.heap key node level r.1.preds r.1.succs
  ]

-- As many levels as are left, from `level` upwards.
pub link_upper : ℕ → ℕ → SkipList → Heap → Bytes → ℕ → ℕ → Tower → Tower → Run Found
link_upper f zero s h key node level preds succs =
    Run.ok (record { preds = preds; succs = succs; heap = h })
link_upper f (suc left) s h key node level preds succs = do
  r ← link_level f s h key node level preds succs
  link_upper f left s r.heap key node (suc level) r.preds r.succs

abbrev pub displaced : Option Bytes → List Garbage → List Garbage
displaced none retired = retired
displaced (some v) retired = Garbage.a_value v ∷ retired

-- The key is there already: its cell is swapped.
unfoldable pub update : SkipList → Heap → ℕ → Bytes → Run (Bool × SkipList)
update s h node val = do
  n ← header h node
  Run.ok (
    false,
    record s {
      heap = put h node (some (record n { value = some val }));
      retired = displaced n.value s.retired;
    },
  )

-- A fresh node pointed at the successors found, and whether it was published at the bottom level.
unfoldable pub publish_at : Heap → ℕ → ℕ → Tower → Tower → Run (Bool × Heap)
publish_at h node top_level preds succs = do
  h' ← point_at (suc top_level) h node succs
  cas h' (preds 0) 0 (succs 0, false) (node, false)

unfoldable pub publish : Heap → Bytes → Bytes → ℕ → Tower → Tower → Run (ℕ × Bool × Heap)
publish h key val top_level preds succs =
    let n : Node = record {
      key = BoundKey.fin (new_key key);
      value = some val;
      top_level = top_level;
    } in
    let (node, h') = alloc h n in
    publish_at h' node top_level preds succs >>= λ c. Run.ok (node, c.0, c.1)

pub insert_at : ℕ → SkipList → Bytes → Bytes → ℕ → Tower → Tower → Run (Bool × SkipList)
insert_at zero s key val top_level preds succs = Run.out_of_fuel
insert_at (suc f) s key val top_level preds succs = do
  r ← find f s s.heap key preds succs
  elim r.0 [
    | true ↦ update s r.1.heap (r.1.succs 0) val
    | false ↦ do
      c ← publish r.1.heap key val top_level r.1.preds r.1.succs
      elim c.1 [
        | false ↦ do
          h ← free_node c.2 c.0
          insert_at f (record s { heap = h }) key val top_level r.1.preds r.1.succs
        | true ↦ do
          u ← link_upper f top_level s c.2 key c.0 1 r.1.preds r.1.succs
          Run.ok (true, record s { heap = u.heap; len = suc s.len })
      ]
  ]

-- The state of the thread's generator goes in and out.
unfoldable pub insert : ℕ → ℕ → SkipList → Bytes → Bytes → Run (Bool × SkipList × ℕ)
insert f rng s key val =
    let (top_level, rng') = random_level rng s in
    insert_at f s key val top_level nulls nulls >>= λ r. Run.ok (r.0, r.1, rng')

-- `attempt_mark` until the link is marked.
pub mark_level : ℕ → Heap → ℕ → ℕ → Run Heap
mark_level zero h p level = Run.out_of_fuel
mark_level (suc f) h p level = do
  v ← link h p level
  elim v.1 [
    | true ↦ Run.ok h
    | false ↦ do c ← attempt_mark h p level v.0 true; mark_level f c.1 p level
  ]

-- The levels from `level` down to 1.
pub mark_upper : ℕ → ℕ → Heap → ℕ → Run Heap
mark_upper f zero h p = Run.ok h
mark_upper f (suc level) h p = do h' ← mark_level f h p (suc level); mark_upper f level h' p

-- Whether this call marked the bottom level.
pub mark_bottom : ℕ → Heap → ℕ → ℕ → Run (Bool × Heap)
mark_bottom zero h p succ = Run.out_of_fuel
mark_bottom (suc f) h p succ = do
  c ← cas h p 0 (succ, false) (succ, true)
  g ← link c.1 p 0
  elim c.0 [
    | true ↦ Run.ok (true, c.1)
    | false ↦ elim g.1 [ true ↦ Run.ok (false, c.1) | false ↦ mark_bottom f c.1 p g.0 ]
  ]

unfoldable pub remove_node : ℕ → SkipList → Bytes → Found → Run (Bool × SkipList)
remove_node f s key r = do
  n ← header r.heap (r.succs 0)
  h ← mark_upper f n.top_level r.heap (r.succs 0)
  l ← link h (r.succs 0) 0
  b ← mark_bottom f h (r.succs 0) l.0
  elim b.0 [
    | false ↦ Run.ok (false, record s { heap = b.1 })
    | true ↦ do
      again ← find f s b.1 key r.preds r.succs
      Run.ok (
        true,
        record s {
          heap = again.1.heap;
          len = s.len - 1;
          retired = Garbage.a_node (r.succs 0) ∷ s.retired;
        },
      )
  ]

unfoldable pub remove : ℕ → SkipList → Bytes → Run (Bool × SkipList)
remove f s key = do
  r ← find f s s.heap key nulls nulls
  elim r.0 [ false ↦ Run.ok (false, record s { heap = r.1.heap }) | true ↦ remove_node f s key r.1 ]

-- The loop of `drop`, from a node on.
pub free_from : ℕ → Heap → ℕ → Run Heap
free_from zero h cur = Run.out_of_fuel
free_from (suc f) h cur = elim (cur == 0) [
  | true ↦ Run.ok h
  | false ↦ do l ← link h cur 0; h' ← free_node h cur; free_from f h' l.0
]

unfoldable pub drop : ℕ → SkipList → Run Heap
drop f s = free_from f s.heap s.head
