-- ===== src/Skiplist/Ops/Removes/Loops.antt =====
-- The loops of `remove` that mark the levels of a node, from the top.
use zerokv.Prelude.{
  le→leb, ℕ, zero, suc, ◌≤◌, ◌<◌, ◌≡◌, refl, ap, subst, ◌∙◌, true, false, List, arith, inl, inr,
  ◌⊎◌,
}
use zerokv.Index.{Bytes}
use zerokv.Skiplist.Heap.{Heap, Run, write}
use zerokv.Skiplist.Heap.Writes.{
  Tall, link-Tall, cas-Tall, attempt_mark-Tall, write-same, write-other_level,
}
use zerokv.Skiplist.Chains.{Chain-same}
use zerokv.Skiplist.Entries.{Entry, ids}
use zerokv.Skiplist.Layout.{first}
use zerokv.Skiplist.Search.Gaps.{Loose-same}
use zerokv.Skiplist.Search.Walks.{on}
use zerokv.Skiplist.Ops.{mark_level, mark_upper, mark_bottom}
use zerokv.Skiplist.Ops.Links.{node-Tall}
use zerokv.Skiplist.Ops.Removes.Marks.{Whole, Marked, Held, node_link, marked_lem}

mark-marked :
    (f : ℕ) (h : Heap) (p l : ℕ)
    → Tall h.node l p
    → (h.links p l).1 ≡ true
    → mark_level (suc f) h p l ≡ Run.ok h
unfolding mark_level
mark-marked f h p l t e = rw (link-Tall h p l t) (rw e refl)

mark-unmarked :
    (f : ℕ) (h : Heap) (p l y : ℕ)
    → Tall h.node l p
    → h.links p l ≡ (y, false)
    → mark_level (suc f) h p l ≡ mark_level f (write h p l (y, true)) p l
unfolding mark_level
mark-unmarked f h p l y t e =
    rw (link-Tall h p l t, ap (λ r. r.1) e, ap (λ r. r.0) e, attempt_mark-Tall h p l y t e) refl

-- A level takes two rounds: one that marks it, and one that sees the mark.
mark_twice :
    (f : ℕ) (h : Heap) (p l y : ℕ)
    → Tall h.node l p
    → h.links p l ≡ (y, false)
    → mark_level (suc (suc f)) h p l ≡ Run.ok (write h p l (y, true))
unfolding write
mark_twice f h p l y t e =
    mark-unmarked (suc f) h p l y t e
    ∙ mark-marked f (write h p l (y, true)) p l t (ap (λ r. r.1) (write-same h p l (y, true)))

bottom_lem :
    (f : ℕ) (h : Heap) (p y : ℕ)
    → Tall h.node 0 p
    → h.links p 0 ≡ (y, false)
    → mark_bottom (suc f) h p y ≡ Run.ok (true, write h p 0 (y, true))
unfolding mark_bottom write
bottom_lem f h p y t e =
    rw (cas-Tall h p 0 (y, false) (y, true) t e, link-Tall (write h p 0 (y, true)) p 0 t) refl

le_cases : (a b : ℕ) → a ≤ b → (a ≡ b) ⊎ (suc a ≤ b)
le_cases a b h = ground arith

module _ (key : Bytes) (head tail : ℕ) (lo hi : List Entry) (x : Entry) (top : ℕ) where
  -- The levels below `n` are not marked yet, those from `n` on are.
  pub record IsMarking (n : ℕ) (h0 h : Heap) : Type 0 where
    pub node : h.node ≡ h0.node
    pub next : h.next ≡ h0.next
    pub held : Held key head tail lo hi x top h
    pub whole : (l : ℕ) → l < n → Whole key head tail lo hi x top l h
    pub marked : (l : ℕ) → n ≤ l → l ≤ x.top → Marked key head tail lo hi x top l h
    pub above : (l : ℕ) → x.top < l → l ≤ top → Whole key head tail lo hi x top l h

  abbrev mark : ℕ → Heap → Heap
  mark l h = write h x.addr l (first tail (ids l hi), true)

  mark-IsMarking :
      (l : ℕ) (h0 h : Heap) → l ≤ x.top → IsMarking (suc l) h0 h → IsMarking l h0 (mark l h)
  unfolding write
  mark-IsMarking l h0 h le is =
      let h' = mark l h in
      let same = λ (k : ℕ) (d : k ≡ l → ⊥) (a : ℕ).
        write-other_level h x.addr l a k (first tail (ids l hi), true) d in
      record {
        node = is.node;
        next = is.next;
        held = is.held;
        whole = λ k m.
            Chain-same (on k h) (on k h') head _ (same k (λ c. omega (arith, m, c)))
              (is.whole k (omega (arith, m)));
        marked = λ k m n. elim (le_cases l k m) [
          | inl e ↦
              subst (λ j. Marked key head tail lo hi x top j h') e
                (marked_lem key head tail lo hi x top l (le→leb l x.top le) h is.held
                  (is.whole l (omega arith)))
          | inr e ↦
              Loose-same (on k h) (on k h') head _ _ _ (same k (λ c. omega (arith, e, c)))
                (is.marked k e n)
        ];
        above = λ k m n.
            Chain-same (on k h) (on k h') head _ (same k (λ c. omega (arith, m, c, le)))
              (is.above k m n);
      }

  pub mark_upper_lem :
      (n f : ℕ) (h0 h : Heap)
      → n ≤ x.top
      → IsMarking (suc n) h0 h
      → (h' : Heap) × (mark_upper (suc (suc f)) n h x.addr ≡ Run.ok h') × IsMarking 1 h0 h'
  unfolding mark_upper
  mark_upper_lem zero f h0 h le is = (h, refl, is)
  mark_upper_lem (suc n) f h0 h le is =
      let reaches = le→leb (suc n) x.top le in
      let (h', run, done) =
        mark_upper_lem n f h0 (mark (suc n) h) (omega (arith, le))
          (mark-IsMarking (suc n) h0 h le is) in
      (
        h',
        rw
            (mark_twice f h x.addr (suc n) (first tail (ids (suc n) hi))
              (node-Tall head tail lo hi x h.node (suc n) top le is.held)
              (node_link key head tail lo hi x top (suc n) reaches h
                (is.whole (suc n) (omega arith))))
            run,
        done,
      )

  pub mark_bottom_lem :
      (f : ℕ) (h0 h : Heap)
      → IsMarking 1 h0 h
      → (mark_bottom (suc f) h x.addr (h.links x.addr 0).0 ≡ Run.ok (true, mark 0 h))
        × IsMarking 0 h0 (mark 0 h)
  mark_bottom_lem f h0 h is =
      let held =
        node_link key head tail lo hi x top 0 (le→leb 0 x.top (omega arith)) h
          (is.whole 0 (omega arith)) in
      (
        ap (λ r. mark_bottom (suc f) h x.addr r.0) held
            ∙ bottom_lem f h x.addr (first tail (ids 0 hi))
                (node-Tall head tail lo hi x h.node 0 top (omega arith) is.held) held,
        mark-IsMarking 0 h0 h (omega arith) is,
      )
