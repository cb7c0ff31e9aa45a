-- ===== src/Skiplist/Ops/Removes/Marks.antt =====
-- How `remove` marks the levels of a node, so that the search after it splices the node out.
use zerokv.Prelude.{ℕ, ◌≡◌, ◌≢◌, sym, ◌∙◌, true, false, List, [], ◌∷◌, ◌++◌, leb}
use zerokv.Index.{Bytes}
use zerokv.Skiplist.Heap.{Heap, Ref, write}
use zerokv.Skiplist.Heap.Writes.{write-same, write-other_node}
use zerokv.Skiplist.Chains.{
  last, last-All, Apart, Chain, Chain-left, Chain-right, Chain-beyond, All-left, All-right,
}
use zerokv.Skiplist.Entries.{Entry, ids}
use zerokv.Skiplist.Layout.{stops, first, Layout}
use zerokv.Skiplist.Search.Gaps.{Gap, Loose}
use zerokv.Skiplist.Search.Walks.{on}
use zerokv.Skiplist.Search.Matches.{two}
use zerokv.Skiplist.Search.Finds.{Linked}
use zerokv.Skiplist.Ops.Links.{level-Apart}

Loose-join :
    (g : ℕ → Ref) (p : ℕ) (vs ds ys : List ℕ)
    → Chain g p vs
    → Gap g (last p vs) false ds ys
    → Loose g p vs ds ys
Loose-join g p [] ds ys c k = k
Loose-join g p (v ∷ vs) ds ys c k = (c.0, Loose-join g v vs ds ys c.1 k)

module _ (key : Bytes) (head tail : ℕ) (lo hi : List Entry) (x : Entry) (top : ℕ) where
  -- The chain still leads through the node, without a mark.
  abbrev pub Whole : ℕ → Heap → Type 0
  Whole l h = Chain (on l h) head (ids l lo ++ (ids l (x ∷ hi) ++ stops tail))

  -- The chain leads through the node, whose own link is marked on the levels that it has.
  abbrev pub Marked : ℕ → Heap → Type 0
  Marked l h = Linked key head tail lo (x ∷ []) hi l h

  abbrev pub Held : Heap → Type 0
  Held h = Layout h.node head tail top (lo ++ x ∷ hi)

  module _ (l : ℕ) (reaches : leb l x.top ≡ true) where
    -- What the node links to.
    pub node_link : (h : Heap) → Whole l h → on l h x.addr ≡ (first tail (ids l hi), false)
    node_link h c =
        let (z, ws, t) = two tail (ids l hi) in
        (Chain-right (on l h) head (ids l lo) (x.addr ∷ first tail (ids l hi) ∷ z ∷ ws)
          (rw (reaches, t) at c)).1.0

    pub marked_lem :
        (h : Heap) → Held h → Whole l h → Marked l (write h x.addr l (first tail (ids l hi), true))
    marked_lem h lay c =
        let (z, ws, t) = two tail (ids l hi) in
        let y = first tail (ids l hi) in
        let h' = write h x.addr l (y, true) in
        let c' : Chain (on l h) head (ids l lo ++ x.addr ∷ y ∷ z ∷ ws) = rw (reaches, t) at c in
        let a : Apart x.addr (head ∷ ids l lo ++ y ∷ z ∷ ws) =
          rw t at (level-Apart head tail lo hi x h.node l top lay) in
        let same = λ (b : ℕ) (e : b ≢ x.addr) (d : b ≢ x.addr).
          write-other_node h x.addr l b l (y, true) e in
        let before = All-left (λ b. x.addr ≢ b) (head ∷ ids l lo) (y ∷ z ∷ ws) a in
        let beyond = All-right (λ b. x.addr ≢ b) (head ∷ ids l lo) (y ∷ z ∷ ws) a in
        let rest = Chain-right (on l h) head (ids l lo) (x.addr ∷ y ∷ z ∷ ws) c' in
        rw (reaches, t)
          (Loose-join (on l h') head (ids l lo) (x.addr ∷ []) (y ∷ z ∷ ws)
            (Chain-beyond (on l h) (on l h') x.addr x.addr same head (ids l lo) before before
              (Chain-left (on l h) head (ids l lo) (x.addr ∷ y ∷ z ∷ ws) c'))
            (
              write-other_node h x.addr l (last head (ids l lo)) l (y, true)
                    (λ e. last-All (λ b. x.addr ≢ b) head (ids l lo) before.0 before.1 (sym e))
                  ∙ rest.0,
              (
                write-same h x.addr l (y, true),
                Chain-beyond (on l h) (on l h') x.addr x.addr same y (z ∷ ws) beyond beyond
                    rest.1.1,
              ),
            ))
