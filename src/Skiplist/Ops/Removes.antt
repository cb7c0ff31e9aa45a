-- ===== src/Skiplist/Ops/Removes.antt =====
-- `remove`: it ends, and leaves a map without the key.
pub mod Marks
pub mod Loops
use zerokv.Prelude.{
  leb-false, ℕ, zero, suc, ◌+◌, ◌-◌, ◌≤◌, ◌<◌, ◌≡◌, refl, sym, ap, subst, ◌∙◌, Bool, true, false,
  List, [], ◌∷◌, ◌++◌, length, length-append, All, arith, leb, leb→le, inl, inr, Bool-cases,
}
use zerokv.Index.{Bytes}
use zerokv.Arena.Kv.{slice_eq}
use zerokv.Skiplist.Heap.{Node, Heap, Run, Ref, header, link}
use zerokv.Skiplist.Heap.Writes.{header-some, link-Tall}
use zerokv.Skiplist.Chains.{Apart, Chain}
use zerokv.Skiplist.Entries.{Entry, node_of, addrs, ids}
use zerokv.Skiplist.Layout.{stops, Layout, Below, Above, entries-right}
use zerokv.Skiplist.Search.{Garbage, SkipList, Tower, Found, nulls, find}
use zerokv.Skiplist.Search.Walks.{on}
use zerokv.Skiplist.Search.Matches.{Chain-Loose, hits}
use zerokv.Skiplist.Search.Finds.{Clean, Linked, IsFound, find_lem}
use zerokv.Skiplist.Valid.{IsValid, Sorted-without}
use zerokv.Skiplist.Valid.Changes.{ids_split, Apart-addrs, used_without, Layout-without}
use zerokv.Skiplist.Ops.{remove, remove_node, mark_upper, mark_bottom}
use zerokv.Skiplist.Ops.Links.{node-Tall}
use zerokv.Skiplist.Ops.Inserts.{search}
use zerokv.Skiplist.Ops.Updates.{first_addr}
use zerokv.Skiplist.Ops.Removes.Marks.{Whole, Marked}
use zerokv.Skiplist.Ops.Removes.Loops.{IsMarking, mark_upper_lem, mark_bottom_lem}

-- The steps of a removal, put together.
remove_run :
    (f : ℕ) (s : SkipList) (key : Bytes) (r again : Found) (p : ℕ) (n : Node) (h1 h2 : Heap)
    (v : Ref) (b : Bool)
    → find f s s.heap key nulls nulls ≡ Run.ok (true, r)
    → r.succs 0 ≡ p
    → header r.heap p ≡ Run.ok n
    → mark_upper f n.top_level r.heap p ≡ Run.ok h1
    → link h1 p 0 ≡ Run.ok v
    → mark_bottom f h1 p v.0 ≡ Run.ok (true, h2)
    → find f s h2 key r.preds r.succs ≡ Run.ok (b, again)
    → remove f s key
      ≡ Run.ok (
        true,
        record s { heap = again.heap; len = s.len - 1; retired = Garbage.a_node p ∷ s.retired },
      )
unfolding remove remove_node
remove_run f s key r again p n h1 h2 v b run e hd up ln down out =
    rw (run, e, hd, up, ln, down, out)
      (ap
        (λ q. Run.ok (
          true,
          record s { heap = again.heap; len = s.len - 1; retired = Garbage.a_node q ∷ s.retired },
        ))
        e)

-- A removal of a key that is not there changes nothing.
pub remove_absent :
    (s : SkipList) (lo hi : List Entry) (key : Bytes) (f : ℕ)
    → Below key lo
    → Above key hi
    → IsValid s (lo ++ hi)
    → suc (length lo) < f
    → hits hi key ≡ false
    → (s' : SkipList) × (remove f s key ≡ Run.ok (false, s'))
      × (s'.retired ≡ s.retired)
      × (s'.max_level ≡ s.max_level)
      × IsValid s' (lo ++ hi)
unfolding remove
remove_absent s lo hi key f below above valid l miss =
    let (r, run, found) = search s lo hi key below above valid f nulls nulls l in
    (
      record s { heap = r.heap },
      rw (run, miss) refl,
      refl,
      refl,
      record {
        tail = valid.tail;
        layout =
            subst (λ n. Layout n s.head valid.tail s.max_level (lo ++ hi)) (sym found.node)
              valid.layout;
        fresh =
            subst (λ n. All (λ a. a < n) (s.head ∷ addrs (lo ++ hi) ++ stops valid.tail))
              (sym found.next) valid.fresh;
        sorted = valid.sorted;
        linked = λ k m.
            subst (Chain (on k r.heap) s.head) (sym (ids_split k valid.tail lo hi))
              (found.clean k (omega (arith, m)));
        len = valid.len;
      },
    )

module _ (s : SkipList) (lo hi : List Entry) (x : Entry) (key : Bytes) (below : Below key lo)
    (above : Above key (x ∷ hi)) (valid : IsValid s (lo ++ x ∷ hi)) where
  -- Every level as the second search finds it.
  Linked-marked :
      (h0 h : Heap) (l : ℕ)
      → IsMarking key s.head valid.tail lo hi x s.max_level 0 h0 h
      → l ≤ s.max_level
      → Linked key s.head valid.tail lo (x ∷ []) hi l h
  Linked-marked h0 h l is m = elim (Bool-cases (leb l x.top)) [
    | inl k ↦ is.marked l (omega arith) (leb→le l x.top k)
    | inr k ↦ rw k (
        Chain-Loose (on l h) s.head (ids l lo) (ids l hi ++ stops valid.tail)
          (rw k at (is.above l (leb-false l x.top k) m)))
  ]

  start :
      (ps ss : Tower) (r : Found)
      → IsFound key s.head valid.tail lo [] (x ∷ hi) (suc s.max_level) s.heap ps ss r
      → IsMarking key s.head valid.tail lo hi x s.max_level (suc x.top) r.heap r.heap
  start ps ss r found =
      let low : x.top ≤ s.max_level = (entries-right _ lo (x ∷ hi) valid.layout.tops).0 in
      record {
        node = refl;
        next = refl;
        held =
            subst (λ n. Layout n s.head valid.tail s.max_level (lo ++ x ∷ hi)) (sym found.node)
              valid.layout;
        whole = λ l m. found.clean l (omega (arith, m, low));
        marked = λ l m n. absurd (omega (arith, m, n));
        above = λ l m n. found.clean l (omega (arith, n));
      }

  -- What is left when the node is out of every chain.
  shrunk :
      (h : Heap)
      → h.node ≡ s.heap.node
      → h.next ≡ s.heap.next
      → ((l : ℕ) → l ≤ s.max_level → Clean key s.head valid.tail lo (x ∷ []) hi l h)
      → IsValid
          (record s { heap = h; len = s.len - 1; retired = Garbage.a_node x.addr ∷ s.retired })
          (lo ++ hi)
  shrunk h node next clean = record {
    tail = valid.tail;
    layout = Layout-without lo hi x (
        subst (λ n. Layout n s.head valid.tail s.max_level (lo ++ x ∷ hi)) (sym node) valid.layout);
    fresh =
        used_without s.head valid.tail lo hi x (λ a. a < h.next)
          (subst (λ n. All (λ a. a < n) (s.head ∷ addrs (lo ++ x ∷ hi) ++ stops valid.tail))
            (sym next) valid.fresh);
    sorted = Sorted-without lo hi x valid.sorted;
    linked = λ l m. subst (Chain (on l h) s.head) (sym (ids_split l valid.tail lo hi)) (clean l m);
    len = omega (arith, valid.len, length-append lo (x ∷ hi), length-append lo hi);
  }

  -- The node goes to the guard, and is on no chain any more.
  pub remove_present :
      (f : ℕ)
      → 2 + length lo < f
      → slice_eq x.key key ≡ true
      → (s' : SkipList) × (remove f s key ≡ Run.ok (true, s'))
        × (s'.retired ≡ Garbage.a_node x.addr ∷ s.retired)
        × (s'.max_level ≡ s.max_level)
        × (w : IsValid s' (lo ++ hi)) × Apart x.addr (s'.head ∷ addrs (lo ++ hi) ++ stops w.tail)
  unfolding shrunk
  remove_present zero l k = absurd (omega arith)
  remove_present (suc zero) l k = absurd (omega arith)
  remove_present (suc (suc f)) l k =
      let (r, run, found) =
        search s lo (x ∷ hi) key below above valid (suc (suc f)) nulls nulls (omega arith) in
      let is = start nulls nulls r found in
      let here = (entries-right _ lo (x ∷ hi) is.held.nodes).0 in
      let (h1, up, is1) =
        mark_upper_lem key s.head valid.tail lo hi x s.max_level x.top f r.heap r.heap (omega arith)
          is in
      let (down, is2) =
        mark_bottom_lem key s.head valid.tail lo hi x s.max_level (suc f) r.heap h1 is1 in
      let (again, out, clean) =
        find_lem key s.head valid.tail lo (x ∷ []) hi (suc (suc f)) s _ r.preds r.succs refl
          (omega (arith, l)) below above.1 is2.held (λ j m. Linked-marked r.heap _ j is2 m) in
      (
        record s {
          heap = again.heap;
          len = s.len - 1;
          retired = Garbage.a_node x.addr ∷ s.retired;
        },
        remove_run (suc (suc f)) s key r again x.addr (node_of x) h1 _ _ _
            (run ∙ ap (λ b. Run.ok (b, r)) k)
            (found.succs 0 (omega arith) ∙ first_addr valid.tail x hi)
            (header-some r.heap x.addr (node_of x) here) up
            (link-Tall h1 x.addr 0
              (node-Tall s.head valid.tail lo hi x h1.node 0 s.max_level (omega arith) is1.held))
            down out,
        refl,
        refl,
        shrunk again.heap (clean.node ∙ is2.node ∙ found.node) (clean.next ∙ is2.next ∙ found.next)
            (λ j m. clean.clean j (omega (arith, m))),
        Apart-addrs s.head valid.tail lo hi x valid.layout.distinct,
      )
