-- ===== src/Skiplist/Ops/Drops.antt =====
-- `drop`: every node that is in the map is freed, once, and no other.
use mathlib.Core.List.{append_assoc}
use zerokv.Prelude.{
  ℕ, zero, suc, ◌+◌, ◌<◌, ◌≡◌, ◌≢◌, refl, sym, ap, subst, ◌∙◌, Bool, false, Option, none, some,
  List, [], ◌∷◌, ◌++◌, length, length-append, All, All-append, arith, ◌==◌, ==_ne, if◌then◌else◌,
}
use zerokv.Skiplist.Heap.{Node, Heap, Run, put, free_node}
use zerokv.Skiplist.Heap.Writes.{link-Tall, header-some}
use zerokv.Skiplist.Chains.{Apart, All-imp, Distinct, Distinct-Apart, Distinct-left, Chain}
use zerokv.Skiplist.Entries.{Entry, node_of, addrs, ids-zero}
use zerokv.Skiplist.Layout.{stops}
use zerokv.Skiplist.Search.{SkipList}
use zerokv.Skiplist.Search.Walks.{on}
use zerokv.Skiplist.Valid.{IsValid}
use zerokv.Skiplist.Ops.{free_from, drop}

-- The nodes but for some addresses.
abbrev pub without : List ℕ → (ℕ → Option Node) → ℕ → Option Node
without [] node a = node a
without (x ∷ xs) node a = without xs (λ b. if b == x then none else node b) a

free-some :
    (h : Heap) (p : ℕ) (n : Node) → h.node p ≡ some n → free_node h p ≡ Run.ok (put h p none)
unfolding free_node
free-some h p n e = rw (header-some h p n e) refl

free_from-zero : (f : ℕ) (h : Heap) → free_from (suc f) h 0 ≡ Run.ok h
unfolding free_from
free_from-zero f h = refl

free_from-step :
    (f : ℕ) (h : Heap) (p q : ℕ) (m : Bool) (n : Node)
    → p ≢ 0
    → h.node p ≡ some n
    → h.links p 0 ≡ (q, m)
    → free_from (suc f) h p ≡ free_from f (put h p none) q
unfolding free_from
free_from-step f h p q m n z e l =
    rw (free_from, ==_ne p 0 z, link-Tall h p 0 (n, e, omega arith), free-some h p n e)
      (ap (λ r. free_from f (put h p none) r.0) l)

still :
    (h : Heap) (p : ℕ) (xs : List ℕ)
    → Apart p xs
    → All (λ a. (n : Node) × (h.node a ≡ some n)) xs
    → All (λ a. (n : Node) × ((put h p none).node a ≡ some n)) xs
unfolding put
still h p [] a k = tt
still h p (x ∷ xs) a k = ((k.0.0, rw (==_ne x p (λ e. a.0 (sym e))) k.0.1), still h p xs a.1 k.1)

free_from_lem :
    (xs : List ℕ) (f : ℕ) (h : Heap) (p : ℕ)
    → suc (length xs) < f
    → All (λ a. (n : Node) × (h.node a ≡ some n)) (p ∷ xs)
    → All (λ a. a ≢ 0) (p ∷ xs)
    → Distinct (p ∷ xs)
    → Chain (on 0 h) p (xs ++ 0 ∷ [])
    → (h' : Heap) × (free_from f h p ≡ Run.ok h')
      × ((a : ℕ) → h'.node a ≡ without (p ∷ xs) h.node a)
unfolding put
free_from_lem xs zero h p l k z d c = absurd (omega arith)
free_from_lem xs (suc zero) h p l k z d c = absurd (omega arith)
free_from_lem [] (suc (suc f)) h p l k z d c = (
  put h p none,
  free_from-step (suc f) h p 0 false k.0.0 z.0 k.0.1 c.0 ∙ free_from-zero f (put h p none),
  λ a. refl,
)
free_from_lem (x ∷ xs) (suc (suc f)) h p l k z d c =
    let (h', run, gone) =
      free_from_lem xs (suc f) (put h p none) x (omega arith) (still h p (x ∷ xs) d.0 k.1) z.1 d.1
        c.1 in
    (h', free_from-step (suc f) h p x false k.0.0 z.0 k.0.1 c.0 ∙ run, gone)

length-addrs : (es : List Entry) → length (addrs es) ≡ length es
length-addrs [] = refl
length-addrs (e ∷ es) = ap suc (length-addrs es)

nodes_there :
    (node : ℕ → Option Node) (es : List Entry)
    → All (λ e. node e.addr ≡ some (node_of e)) es
    → All (λ a. (n : Node) × (node a ≡ some n)) (addrs es)
nodes_there node [] h = tt
nodes_there node (e ∷ es) h = ((node_of e, h.0), nodes_there node es h.1)

-- The nodes of a map: its head, those of the entries, and its tail.
abbrev pub owned : (head tail : ℕ) → List Entry → List ℕ
owned head tail es = head ∷ addrs es ++ tail ∷ []

-- Dropping a well-formed map ends without freeing anything twice; the nodes in the map are gone then, and the
-- other nodes, such as those that a guard holds, are as before. The fuel passes the number of
-- entries by 3 or more.
pub drop-frees :
    (s : SkipList) (es : List Entry) (valid : IsValid s es) (f : ℕ)
    → 2 + length es < f
    → (h : Heap) × (drop f s ≡ Run.ok h)
      × ((a : ℕ) → h.node a ≡ without (owned s.head valid.tail es) s.heap.node a)
unfolding drop
drop-frees s es valid f l =
    let lay = valid.layout in
    let tail = valid.tail in
    let whole : (s.head ∷ addrs es ++ stops tail) ≡ owned s.head tail es ++ 0 ∷ [] =
      ap (λ xs. s.head ∷ xs) (sym (append_assoc (addrs es) (tail ∷ []) (0 ∷ []))) in
    let d = subst Distinct whole lay.distinct in
    free_from_lem (addrs es ++ tail ∷ []) f s.heap s.head
      (omega (arith, l, length-append (addrs es) (tail ∷ []), length-addrs es))
      (
        (_, lay.head_node),
        All-append _ (addrs es) (tail ∷ []) (nodes_there s.heap.node es lay.nodes)
            ((_, lay.tail_node), tt),
      )
      (All-imp _ _ (λ a k. k.0) (owned s.head tail es)
        (Distinct-Apart (owned s.head tail es) (0 ∷ []) d))
      (Distinct-left (owned s.head tail es) (0 ∷ []) d)
      (subst (Chain (on 0 s.heap) s.head)
        (ap (λ xs. xs ++ stops tail) (ids-zero es)
          ∙ sym (append_assoc (addrs es) (tail ∷ []) (0 ∷ [])))
        (valid.linked 0 (omega arith)))
