-- ===== src/Skiplist/Ops/Updates.antt =====
-- `insert` of a key that is there: its value is exchanged.
use zerokv.Prelude.{
  ℕ, zero, suc, ◌+◌, ◌≤◌, ◌<◌, ◌≡◌, refl, sym, ap, subst, ◌∙◌, true, false, some, List, ◌∷◌, ◌++◌,
  length, length-append, All, arith,
}
use zerokv.Index.{Bytes}
use zerokv.Arena.Kv.{slice_eq}
use zerokv.Arena.Kv.Entries.{slice_eq-eq}
use zerokv.Skiplist.Heap.{Heap, Run, put}
use zerokv.Skiplist.Heap.Writes.{header-some}
use zerokv.Skiplist.Chains.{Chain}
use zerokv.Skiplist.Entries.{Entry, node_of, addrs, addrs-append, ids, ids-zero}
use zerokv.Skiplist.Layout.{stops, first, Layout, Below, Above, entries-right}
use zerokv.Skiplist.Search.{Garbage, SkipList, Tower}
use zerokv.Skiplist.Search.Walks.{on}
use zerokv.Skiplist.Valid.{IsValid, Sorted-middle, Sorted-without, Sorted-right}
use zerokv.Skiplist.Valid.Changes.{ids_split, Apart-addrs, Layout-middle, Layout-without}
use zerokv.Skiplist.Ops.{insert_at, update}
use zerokv.Skiplist.Ops.Inserts.{search}
use zerokv.Skiplist.Ops.Inserts.Fresh.{put-same, put-other}

-- The node at the bottom that the key's search ends at.
pub first_addr : (tail : ℕ) (x : Entry) (hi : List Entry) → first tail (ids 0 (x ∷ hi)) ≡ x.addr
first_addr tail x hi = rw (ids-zero (x ∷ hi)) refl

module _ (s : SkipList) (lo hi : List Entry) (x : Entry) (key val : Bytes) (below : Below key lo)
    (above : Above key (x ∷ hi)) (valid : IsValid s (lo ++ x ∷ hi)) where
  abbrev pub exchanged : Entry
  exchanged = record x { value = val }

  abbrev after_exchange : Heap → SkipList
  after_exchange h = record s {
    heap = put h x.addr (some (node_of exchanged));
    retired = Garbage.a_value x.value ∷ s.retired;
  }

  update_lem :
      (h : Heap) → h.node ≡ s.heap.node → update s h x.addr val ≡ Run.ok (false, after_exchange h)
  unfolding update
  update_lem h e =
      let here = ap (λ n. n x.addr) e ∙ (entries-right _ lo (x ∷ hi) valid.layout.nodes).0 in
      rw (header-some h x.addr (node_of x) here) refl

  exchange-IsValid :
      (h : Heap)
      → slice_eq x.key key ≡ true
      → h.node ≡ s.heap.node
      → h.next ≡ s.heap.next
      → ((l : ℕ)
          → l ≤ s.max_level
          → Chain (on l h) s.head (ids l lo ++ (ids l (x ∷ hi) ++ stops valid.tail)))
      → IsValid (after_exchange h) (lo ++ exchanged ∷ hi)
  unfolding put
  exchange-IsValid h k node next clean =
      let lay =
        subst (λ n. Layout n s.head valid.tail s.max_level (lo ++ x ∷ hi)) (sym node)
          valid.layout in
      let addrs_same : addrs (lo ++ x ∷ hi) ≡ addrs (lo ++ exchanged ∷ hi) =
        addrs-append lo (x ∷ hi) ∙ sym (addrs-append lo (exchanged ∷ hi)) in
      record {
        tail = valid.tail;
        layout =
            Layout-middle lo hi exchanged (λ a e. put-other h x.addr a _ e) (put-same h x.addr _)
              (entries-right _ lo (x ∷ hi) lay.tops).0
              (Apart-addrs s.head valid.tail lo hi x lay.distinct) (Layout-without lo hi x lay);
        fresh =
            subst
              (λ n. All (λ a. a < n) (s.head ∷ addrs (lo ++ exchanged ∷ hi) ++ stops valid.tail))
              (sym next)
              (subst (λ xs. All (λ a. a < s.heap.next) (s.head ∷ xs ++ stops valid.tail)) addrs_same
                valid.fresh);
        sorted =
            Sorted-middle lo hi exchanged (Sorted-without lo hi x valid.sorted)
              (subst (λ q. Below q lo) (sym (slice_eq-eq x.key key k)) below)
              (Sorted-right lo (x ∷ hi) valid.sorted).0;
        linked = λ l m.
            subst (Chain (on l h) s.head) (sym (ids_split l valid.tail lo (exchanged ∷ hi)))
              (clean l m);
        len =
            omega (arith, valid.len, length-append lo (x ∷ hi), length-append lo (exchanged ∷ hi));
      }

  -- The displaced value goes to the guard.
  pub insert_present :
      (f top : ℕ) (ps ss : Tower)
      → 2 + length lo < f
      → slice_eq x.key key ≡ true
      → (s' : SkipList) × (insert_at f s key val top ps ss ≡ Run.ok (false, s'))
        × (s'.retired ≡ Garbage.a_value x.value ∷ s.retired)
        × (s'.max_level ≡ s.max_level)
        × IsValid s' (lo ++ exchanged ∷ hi)
  unfolding insert_at
  insert_present zero top ps ss l k = absurd (omega arith)
  insert_present (suc f) top ps ss l k =
      let (r, run, found) = search s lo (x ∷ hi) key below above valid f ps ss (omega arith) in
      (
        after_exchange r.heap,
        rw
            (
              run,
              k,
              found.succs 0 (omega arith) ∙ first_addr valid.tail x hi,
              update_lem r.heap found.node,
            )
            refl,
        refl,
        refl,
        exchange-IsValid r.heap k found.node found.next (λ l m. found.clean l (omega arith)),
      )
