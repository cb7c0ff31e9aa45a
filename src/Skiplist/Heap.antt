-- ===== src/Skiplist/Heap.antt =====
-- crates/zerokv/src/skiplist.rs: nodes with their towers of links, and the atomic accesses to them.
pub mod Writes
pub mod Pointers
use zerokv.Prelude.{
  ℕ, zero, suc, ◌+◌, ◌-◌, ◌*◌, ◌/◌, ◌%◌, Bool, true, false, Option, none, some, List, [], ◌∷◌, leb,
  ◌==◌, ◌&&◌, if◌then◌else◌, bit_and, bit_or,
}
use zerokv.Words.{word}
use zerokv.Index.{Bytes}
use zerokv.Skiplist.Keys.{BoundKey}

-- `value` is what the cell holds that the node points at, none for a null pointer.
pub record Node : Type 0 where
  pub key : BoundKey
  pub value : Option Bytes
  pub top_level : ℕ

abbrev pub max_height : ℕ
max_height = 16

-- The node before every key, and the one after.
abbrev pub sentinel : BoundKey → Node
sentinel k = record { key = k; value = none; top_level = max_height - 1 }

-- What the word of a `Link` stands for: the reference, and the mark in its lowest bit.
abbrev pub Ref : Type 0
Ref = ℕ × Bool

abbrev bit : Bool → ℕ
bit true = 1
bit false = 0

unfoldable pub pack : ℕ → Bool → ℕ
pack ptr mark = bit_or ptr (bit mark)

-- `!1` is the word all of whose bits but the lowest are set.
unfoldable pub ptr_of : ℕ → ℕ
ptr_of v = bit_and v (word - 2)

unfoldable pub mark_of : ℕ → Bool
mark_of v = bit_and v 1 == 1

-- Nodes by their addresses, of which 0 is null, and the link of a node at a level. Addresses are
-- given in the order of allocation, and none is given again.
pub record Heap : Type 0 where
  pub node : ℕ → Option Node
  pub links : ℕ → ℕ → Ref
  pub next : ℕ

-- How a piece of code ends: `changed` is the jump to `'retry`, and a fault an access to no node.
pub data Run (A : Type 0) : Type 0 where
  ok : A → Run A
  changed : Heap → Run A
  fault : Run A
  out_of_fuel : Run A

infixl 5 ◌>>=◌
abbrev pub ◌>>=◌ : {A B : Type 0} → Run A → (A → Run B) → Run B
Run.ok a >>= k = k a
Run.changed h >>= k = Run.changed h
Run.fault >>= k = Run.fault
Run.out_of_fuel >>= k = Run.out_of_fuel

abbrev deref : Option Node → Run Node
deref none = Run.fault
deref (some n) = Run.ok n

-- `(*p).key`, `(*p).value` and `(*p).top_level`.
unfoldable pub header : Heap → ℕ → Run Node
header h p = deref (h.node p)

-- The tower of a node ends at its `top_level`.
unfoldable pub link : Heap → ℕ → ℕ → Run Ref
unfolding header
link h p level = do
  n ← header h p
  if leb level n.top_level then Run.ok (h.links p level) else Run.fault

-- A word written to one link.
unfoldable pub write : Heap → ℕ → ℕ → Ref → Heap
write h p level v = record h { links = λ a l. if a == p && l == level then v else h.links a l }

unfoldable pub store : Heap → ℕ → ℕ → Ref → Run Heap
unfolding link write
store h p level v = do _ ← link h p level; Run.ok (write h p level v)

abbrev same_mark : Bool → Bool → Bool
same_mark true b = b
same_mark false true = false
same_mark false false = true

unfoldable pub same_ref : Ref → Ref → Bool
same_ref a b = a.0 == b.0 && same_mark a.1 b.1

-- `cas` of a link, and `attempt_mark` with it.
unfoldable pub cas : Heap → ℕ → ℕ → Ref → Ref → Run (Bool × Heap)
unfolding link same_ref write
cas h p level exp new = do
  v ← link h p level
  Run.ok (if same_ref v exp then (true, write h p level new) else (false, h))

unfoldable pub attempt_mark : Heap → ℕ → ℕ → ℕ → Bool → Run (Bool × Heap)
unfolding cas
attempt_mark h p level exp mark = cas h p level (exp, false) (exp, mark)

-- The header of a node replaced, and the node at an address made or freed.
unfoldable pub put : Heap → ℕ → Option Node → Heap
put h p n = record h { node = λ a. if a == p then n else h.node a }

abbrev null_links : Heap → ℕ → Heap
null_links h p = record h { links = λ a l. if a == p then (0, false) else h.links a l }

-- `Node::new`: a tower of null links.
unfoldable pub alloc : Heap → Node → ℕ × Heap
unfolding put
alloc h n = (h.next, record (null_links (put h h.next (some n)) h.next) { next = suc h.next })

-- `free_node`: it must be a live node.
unfoldable pub free_node : Heap → ℕ → Run Heap
unfolding header put
free_node h p = do _ ← header h p; Run.ok (put h p none)
