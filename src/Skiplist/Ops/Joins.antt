-- ===== src/Skiplist/Ops/Joins.antt =====
-- The loops of `insert` over the levels of a fresh node.
use zerokv.Prelude.{
  lt_suc, ℕ, zero, suc, ◌+◌, ◌≤◌, ◌<◌, ◌≡◌, ◌≢◌, refl, sym, subst, ◌∙◌, false, List, [], ◌∷◌, ◌++◌,
  arith, inl, inr,
}
use zerokv.Skiplist.Heap.{Heap, Run, write}
use zerokv.Skiplist.Heap.Writes.{
  store-Tall, cas-Tall, write-same, write-other_node, write-other_level,
}
use zerokv.Skiplist.Chains.{last, Chain-same}
use zerokv.Skiplist.Entries.{Entry, ids}
use zerokv.Skiplist.Layout.{first, Layout, Below, Above}
use zerokv.Skiplist.Search.{SkipList, Tower}
use zerokv.Skiplist.Search.Walks.{on}
use zerokv.Skiplist.Search.Finds.{Clean}
use zerokv.Skiplist.Ops.{link_level, link_upper}
use zerokv.Skiplist.Ops.Links.{
  IsLevel, Joined, pred-Tall, node-Tall, joined_lem, pred_link, pred_ne,
}

module _ (head tail : ℕ) (lo hi : List Entry) (e : Entry) (below : Below e.key lo)
    (above : Above e.key hi) (top : ℕ) (le : e.top ≤ top) where
  abbrev pub Placed : Heap → Type 0
  Placed h = Layout h.node head tail top (lo ++ e ∷ hi)

  -- The two links that lead through the node, written.
  pub linked_level :
      (l : ℕ) (h h1 : Heap)
      → l ≤ e.top
      → Placed h
      → Placed h1
      → ((x : ℕ) → x ≢ e.addr → on l h1 x ≡ on l h x)
      → on l h1 e.addr ≡ (first tail (ids l hi), false)
      → Clean e.key head tail lo [] hi l h
      → Joined head tail lo hi e l (write h1 (last head (ids l lo)) l (e.addr, false))
  linked_level l h h1 m lay lay1 same en c =
      let p = last head (ids l lo) in
      joined_lem head tail lo hi e l top h (write h1 p l (e.addr, false)) lay
        (λ x k j. write-other_node h1 p l x l _ k ∙ same x j) (write-same h1 p l _)
        (write-other_node h1 p l e.addr l _
            (λ k. pred_ne head tail lo hi e h.node l top lay (sym k))
          ∙ en)
        c

  -- One upper level is linked at the first try.
  pub link_level_lem :
      (f l : ℕ) (s : SkipList) (h : Heap) (ps ss : Tower)
      → l ≤ e.top
      → Placed h
      → ps l ≡ last head (ids l lo)
      → ss l ≡ first tail (ids l hi)
      → Clean e.key head tail lo [] hi l h
      → (h' : Heap) × (link_level (suc f) s h e.key e.addr l ps ss
          ≡ Run.ok (record { preds = ps; succs = ss; heap = h' }))
        × IsLevel l h h'
        × Joined head tail lo hi e l h'
  unfolding link_level write
  link_level_lem f l s h ps ss m lay ep es c =
      let p = last head (ids l lo) in
      let y = first tail (ids l hi) in
      let h1 : Heap = write h e.addr l (y, false) in
      let held =
        write-other_node h e.addr l p l (y, false) (pred_ne head tail lo hi e h.node l top lay)
        ∙ pred_link head tail lo hi e l h c in
      (
        write h1 p l (e.addr, false),
        rw
            (
              ep,
              es,
              store-Tall h e.addr l (y, false) (node-Tall head tail lo hi e h.node l top m lay),
              cas-Tall h1 p l (y, false) (e.addr, false)
                  (pred-Tall head tail lo hi e h.node l top (omega arith) below above lay) held,
            )
            refl,
        record {
          node = refl;
          next = refl;
          other = λ a k d. write-other_level h1 p l a k _ d ∙ write-other_level h e.addr l a k _ d;
        },
        linked_level l h h1 m lay lay (λ x j. write-other_node h e.addr l x l _ j)
            (write-same h e.addr l _) c,
      )

  -- The levels below `level` lead through the node, the others not yet.
  pub record IsHalf (level : ℕ) (h : Heap) : Type 0 where
    pub placed : Placed h
    pub joined : (l : ℕ) → l < level → Joined head tail lo hi e l h
    pub clean : (l : ℕ) → level ≤ l → l ≤ top → Clean e.key head tail lo [] hi l h

  pub IsHalf-suc :
      (level : ℕ) (h h' : Heap)
      → IsHalf level h
      → IsLevel level h h'
      → Joined head tail lo hi e level h'
      → IsHalf (suc level) h'
  IsHalf-suc level h h' half near j = record {
    placed = subst (λ n. Layout n head tail top (lo ++ e ∷ hi)) (sym near.node) half.placed;
    joined = λ l m. elim (lt_suc l level m) [
      | inl k ↦
          Chain-same (on l h) (on l h') head _ (λ x. near.other x l (λ c. omega (arith, c)))
            (half.joined l k)
      | inr k ↦ rw k j
    ];
    clean = λ l m n.
        Chain-same (on l h) (on l h') head _ (λ x. near.other x l (λ c. omega (arith, c)))
          (half.clean l (omega arith) n);
  }

  -- All upper levels are linked, each at the first try.
  pub link_upper_lem :
      (left f level : ℕ) (s : SkipList) (h : Heap) (ps ss : Tower)
      → level + left ≡ suc e.top
      → ((l : ℕ) → l ≤ top → ps l ≡ last head (ids l lo))
      → ((l : ℕ) → l ≤ top → ss l ≡ first tail (ids l hi))
      → IsHalf level h
      → (h' : Heap) × (link_upper (suc f) left s h e.key e.addr level ps ss
          ≡ Run.ok (record { preds = ps; succs = ss; heap = h' }))
        × (h'.node ≡ h.node)
        × (h'.next ≡ h.next)
        × IsHalf (suc e.top) h'
  unfolding link_upper
  link_upper_lem zero f level s h ps ss q ep es half =
      (h, refl, refl, refl, subst (λ n. IsHalf n h) (omega (arith, q)) half)
  link_upper_lem (suc left) f level s h ps ss q ep es half =
      let (h1, run, near, joined) =
        link_level_lem f level s h ps ss (omega (arith, q)) half.placed
          (ep level (omega (arith, q))) (es level (omega (arith, q)))
          (half.clean level (omega arith) (omega (arith, q))) in
      let (h2, go, n, x, done) =
        link_upper_lem left f (suc level) s h1 ps ss (omega (arith, q)) ep es
          (IsHalf-suc level h h1 half near joined) in
      (h2, rw run go, n ∙ near.node, x ∙ near.next, done)
