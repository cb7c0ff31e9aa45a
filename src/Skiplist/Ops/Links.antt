-- ===== src/Skiplist/Ops/Links.antt =====
-- How `insert` leads the levels of a fresh node into the chains.
use zerokv.Prelude.{ℕ, ◌≤◌, ◌≡◌, ◌≢◌, sym, subst, false, Option, List, [], ◌∷◌, ◌++◌}
use zerokv.Skiplist.Keys.Order.{slice_lt_irrefl}
use zerokv.Skiplist.Heap.{Node, Heap}
use zerokv.Skiplist.Heap.Writes.{Tall}
use zerokv.Skiplist.Chains.{
  last, last-All, Apart, Distinct, Chain, Chain-right, Chain-inserted, All-imp, All-left,
}
use zerokv.Skiplist.Entries.{Entry, node_of, ids, All-ids, Distinct-ids}
use zerokv.Skiplist.Layout.{stops, first, Layout, Below, Above, Layout-Lane, entries-right}
use zerokv.Skiplist.Search.Walks.{on}
use zerokv.Skiplist.Search.Matches.{two}
use zerokv.Skiplist.Search.Finds.{Clean}
use zerokv.Skiplist.Valid.Changes.{ids_split, Apart-addrs, Layout-without}

-- Two heaps that differ on one level at most, in links alone.
pub record IsLevel (level : ℕ) (h h' : Heap) : Type 0 where
  pub node : h'.node ≡ h.node
  pub next : h'.next ≡ h.next
  pub other : (a l : ℕ) → l ≢ level → h'.links a l ≡ h.links a l

module _ (head tail : ℕ) (lo hi : List Entry) (e : Entry) where
  abbrev pub Joined : ℕ → Heap → Type 0
  Joined l h = Chain (on l h) head (ids l lo ++ e.addr ∷ (ids l hi ++ stops tail))

  pub level-Distinct :
      (node : ℕ → Option Node) (l top : ℕ)
      → Layout node head tail top (lo ++ e ∷ hi)
      → Distinct (head ∷ ids l lo ++ (ids l hi ++ stops tail))
  level-Distinct node l top lay =
      let d = (Layout-without lo hi e lay).distinct in
      (
        subst (Apart head) (ids_split l tail lo hi)
            (All-ids (λ x. head ≢ x) l (lo ++ hi) (stops tail) d.0),
        subst Distinct (ids_split l tail lo hi) (Distinct-ids l (lo ++ hi) (stops tail) d.1),
      )

  pub level-Apart :
      (node : ℕ → Option Node) (l top : ℕ)
      → Layout node head tail top (lo ++ e ∷ hi)
      → Apart e.addr (head ∷ ids l lo ++ (ids l hi ++ stops tail))
  level-Apart node l top lay =
      let a = Apart-addrs head tail lo hi e lay.distinct in
      (
        a.0,
        subst (Apart e.addr) (ids_split l tail lo hi)
            (All-ids (λ x. e.addr ≢ x) l (lo ++ hi) (stops tail) a.1),
      )

  pub pred-Tall :
      (node : ℕ → Option Node) (l top : ℕ)
      → l ≤ top
      → Below e.key lo
      → Above e.key hi
      → Layout node head tail top (lo ++ e ∷ hi)
      → Tall node l (last head (ids l lo))
  pred-Tall node l top le b a lay =
      let lane = Layout-Lane l e.key lo [] (e ∷ hi) le b (slice_lt_irrefl e.key, a) lay in
      last-All (Tall node l) head (ids l lo) lane.tall_head
        (All-imp _ _ (λ x s. (s.0, s.1, s.2)) (ids l lo) lane.before)

  pub node-Tall :
      (node : ℕ → Option Node) (l top : ℕ)
      → l ≤ e.top
      → Layout node head tail top (lo ++ e ∷ hi)
      → Tall node l e.addr
  node-Tall node l top le lay = (node_of e, (entries-right _ lo (e ∷ hi) lay.nodes).0, le)

  -- A level whose last link before the key leads to the node, and the node's to what followed.
  pub joined_lem :
      (l top : ℕ) (h h' : Heap)
      → Layout h.node head tail top (lo ++ e ∷ hi)
      → ((x : ℕ) → x ≢ last head (ids l lo) → x ≢ e.addr → on l h' x ≡ on l h x)
      → on l h' (last head (ids l lo)) ≡ (e.addr, false)
      → on l h' e.addr ≡ (first tail (ids l hi), false)
      → Clean e.key head tail lo [] hi l h
      → Joined l h'
  joined_lem l top h h' lay same ep en c =
      let (z, ws, t) = two tail (ids l hi) in
      rw t (
        Chain-inserted (on l h) (on l h') head (first tail (ids l hi)) e.addr (ids l lo) (z ∷ ws)
          same ep en (rw t at (level-Distinct h.node l top lay))
          (rw t at (level-Apart h.node l top lay)) (rw t at c))

  -- What the last link before the key holds while the node is not there.
  pub pred_link :
      (l : ℕ) (h : Heap)
      → Clean e.key head tail lo [] hi l h
      → on l h (last head (ids l lo)) ≡ (first tail (ids l hi), false)
  pred_link l h c =
      let (z, ws, t) = two tail (ids l hi) in
      (Chain-right (on l h) head (ids l lo) (first tail (ids l hi) ∷ z ∷ ws) (rw t at c)).0

  -- The node is not the last before the key.
  pub pred_ne :
      (node : ℕ → Option Node) (l top : ℕ)
      → Layout node head tail top (lo ++ e ∷ hi)
      → last head (ids l lo) ≢ e.addr
  pred_ne node l top lay k =
      let a = level-Apart node l top lay in
      last-All (λ x. e.addr ≢ x) head (ids l lo) a.0 (All-left _ (ids l lo) _ a.1) (sym k)
