-- ===== src/Skiplist/Ops/Inserts/Fresh.antt =====
-- A fresh node made and published at the bottom level.
use zerokv.Prelude.{
  lt_suc, ℕ, zero, suc, ◌≤◌, ◌<◌, ◌≡◌, ◌≢◌, refl, sym, ap, subst, ◌∙◌, true, false, Option, List,
  [], ◌∷◌, ◌++◌, arith, inl, inr, ==_refl, ==_ne,
}
use zerokv.Skiplist.Heap.{Node, Heap, Run, ◌>>=◌, put, alloc, write}
use zerokv.Skiplist.Heap.Writes.{
  Tall, store-Tall, cas-Tall, write-same, write-other_node, write-other_level,
}
use zerokv.Skiplist.Chains.{last, Apart, Chain-same, Chain-beyond}
use zerokv.Skiplist.Entries.{Entry, node_of, addrs, ids}
use zerokv.Skiplist.Layout.{stops, first, Layout, Below, Above}
use zerokv.Skiplist.Search.{Tower}
use zerokv.Skiplist.Search.Walks.{on}
use zerokv.Skiplist.Search.Finds.{Clean}
use zerokv.Skiplist.Valid.Changes.{Layout-middle}
use zerokv.Skiplist.Ops.{point_at, publish_at, publish}
use zerokv.Skiplist.Ops.Links.{Joined, level-Apart, pred_link, pred-Tall, node-Tall}
use zerokv.Skiplist.Ops.Joins.{IsHalf, linked_level}

pub put-same : (h : Heap) (p : ℕ) (n : Option Node) → (put h p n).node p ≡ n
unfolding put
put-same h p n = rw (==_refl p) refl

pub put-other : (h : Heap) (p a : ℕ) (n : Option Node) → a ≢ p → (put h p n).node a ≡ h.node a
unfolding put
put-other h p a n e = rw (==_ne a p e) refl

alloc-links : (h : Heap) (n : Node) (a l : ℕ) → a ≢ h.next → (alloc h n).1.links a l ≡ h.links a l
unfolding alloc
alloc-links h n a l e = rw (==_ne a h.next e) refl

-- A node's levels below `k` are pointed at the successors, and nothing else changes.
pub record IsPointed (k : ℕ) (h h' : Heap) (n : ℕ) (ss : Tower) : Type 0 where
  pub node : h'.node ≡ h.node
  pub next : h'.next ≡ h.next
  pub other : (a l : ℕ) → a ≢ n → h'.links a l ≡ h.links a l
  pub pointed : (l : ℕ) → l < k → h'.links n l ≡ (ss l, false)

pub point_at_lem :
    (k : ℕ) (h : Heap) (n : ℕ) (ss : Tower)
    → ((l : ℕ) → l < k → Tall h.node l n)
    → (h' : Heap) × (point_at k h n ss ≡ Run.ok h') × IsPointed k h h' n ss
unfolding point_at write
point_at_lem zero h n ss t = (
  h,
  refl,
  record { node = refl; next = refl; other = λ a l e. refl; pointed = λ l m. absurd (omega arith) },
)
point_at_lem (suc k) h n ss t =
    let (h1, run, is) = point_at_lem k h n ss (λ l m. t l (omega arith)) in
    (
      write h1 n k (ss k, false),
      rw run (
          store-Tall h1 n k (ss k, false)
            (subst (λ f. Tall f k n) (sym is.node) (t k (omega arith)))),
      record {
        node = is.node;
        next = is.next;
        other = λ a l e. write-other_node h1 n k a l _ e ∙ is.other a l e;
        pointed = λ l m. elim (lt_suc l k m) [
          | inl j ↦ write-other_level h1 n k n l _ (λ c. omega (arith, c)) ∙ is.pointed l j
          | inr j ↦ rw j (write-same h1 n k _)
        ];
      },
    )

module _ (head tail : ℕ) (lo hi : List Entry) (e : Entry) (below : Below e.key lo)
    (above : Above e.key hi) (top : ℕ) (le : e.top ≤ top) where
  made : Heap → Heap
  made h = (alloc h (node_of e)).1

  made-Layout :
      (h : Heap)
      → e.addr ≡ h.next
      → Apart e.addr (head ∷ addrs (lo ++ hi) ++ stops tail)
      → Layout h.node head tail top (lo ++ hi)
      → Layout (made h).node head tail top (lo ++ e ∷ hi)
  unfolding made alloc
  made-Layout h q a lay =
      Layout-middle lo hi e (λ x k. put-other h h.next x _ (λ j. k (j ∙ sym q)))
        (rw q (put-same h h.next _)) le a lay

  publish_at_lem :
      (h : Heap) (ps ss : Tower)
      → Layout h.node head tail top (lo ++ e ∷ hi)
      → ((l : ℕ)
          → l ≤ top
          → (h2 : Heap) → IsPointed (suc e.top) h h2 e.addr ss
          → Clean e.key head tail lo [] hi l h2)
      → ps 0 ≡ last head (ids 0 lo)
      → ss 0 ≡ first tail (ids 0 hi)
      → (h' : Heap) × (publish_at h e.addr e.top ps ss ≡ Run.ok (true, h'))
        × (h'.next ≡ h.next)
        × IsHalf head tail lo hi e below above top le 1 h'
  unfolding publish_at write
  publish_at_lem h ps ss lay clean ep es =
      let (h2, run, is) =
        point_at_lem (suc e.top) h e.addr ss
          (λ l m. node-Tall head tail lo hi e h.node l top (omega arith) lay) in
      let lay2 = subst (λ f. Layout f head tail top (lo ++ e ∷ hi)) (sym is.node) lay in
      let p = last head (ids 0 lo) in
      let joined : Joined head tail lo hi e 0 (write h2 p 0 (e.addr, false)) =
        linked_level head tail lo hi e below above top le 0 h2 h2 (omega arith) lay2 lay2
          (λ x k. refl) (is.pointed 0 (omega arith) ∙ ap (λ y. (y, false)) es)
          (clean 0 (omega arith) h2 is) in
      (
        write h2 p 0 (e.addr, false),
        rw
            (
              run,
              ep,
              es,
              cas-Tall h2 p 0 (first tail (ids 0 hi), false) (e.addr, false)
                  (pred-Tall head tail lo hi e h2.node 0 top (omega arith) below above lay2)
                  (pred_link head tail lo hi e 0 h2 (clean 0 (omega arith) h2 is)),
            )
            refl,
        is.next,
        record {
          placed = lay2;
          joined = λ l m.
              subst (λ k. Joined head tail lo hi e k (write h2 p 0 (e.addr, false)))
                (omega (arith, m)) joined;
          clean = λ l m n.
              Chain-same (on l h2) (on l (write h2 p 0 (e.addr, false))) head _
                (λ x. write-other_level h2 p 0 x l _ (λ c. omega (arith, c))) (clean l n h2 is);
        },
      )

  made-Clean :
      (h h2 : Heap) (ss : Tower) (l : ℕ)
      → e.addr ≡ h.next
      → Layout (made h).node head tail top (lo ++ e ∷ hi)
      → Clean e.key head tail lo [] hi l h
      → IsPointed (suc e.top) (made h) h2 e.addr ss
      → Clean e.key head tail lo [] hi l h2
  unfolding made
  made-Clean h h2 ss l q lay c is =
      let apart = level-Apart head tail lo hi e _ l top lay in
      Chain-beyond (on l h) (on l h2) e.addr e.addr
        (λ x k j. is.other x l k ∙ alloc-links h (node_of e) x l (λ d. k (d ∙ sym q))) head _ apart
        apart c

  -- The node is published at the first try.
  pub publish_lem :
      (h : Heap) (ps ss : Tower)
      → e.addr ≡ h.next
      → Apart e.addr (head ∷ addrs (lo ++ hi) ++ stops tail)
      → Layout h.node head tail top (lo ++ hi)
      → ((l : ℕ) → l ≤ top → Clean e.key head tail lo [] hi l h)
      → ps 0 ≡ last head (ids 0 lo)
      → ss 0 ≡ first tail (ids 0 hi)
      → (h' : Heap) × (publish h e.key e.value e.top ps ss ≡ Run.ok (e.addr, true, h'))
        × (h'.next ≡ suc h.next)
        × IsHalf head tail lo hi e below above top le 1 h'
  unfolding publish alloc made
  publish_lem h ps ss q a lay clean ep es =
      let lay1 = made-Layout h q a lay in
      let (h', run, next, half) =
        publish_at_lem (made h) ps ss lay1 (λ l m h2 is. made-Clean h h2 ss l q lay1 (clean l m) is)
          ep es in
      (
        h',
        ap (λ n. publish_at (made h) n e.top ps ss >>= λ c. Run.ok (n, c.0, c.1)) (sym q)
            ∙ ap (λ r. r >>= λ c. Run.ok (e.addr, c.0, c.1)) run,
        next,
        half,
      )
