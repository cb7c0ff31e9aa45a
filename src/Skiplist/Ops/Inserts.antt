-- ===== src/Skiplist/Ops/Inserts.antt =====
-- `insert`: it ends, and leaves a map that holds the pair.
pub mod Fresh
use zerokv.Prelude.{
  leb-false, ℕ, zero, suc, ◌+◌, ◌≤◌, ◌<◌, ◌≡◌, ◌≢◌, refl, sym, ap, subst, ◌∙◌, Bool, true, false,
  not, Option, none, some, List, [], ◌∷◌, ◌++◌, length, length-append, All, arith, leb, leb→le, inl,
  inr, Bool-cases,
}
use zerokv.Index.{Bytes, absent, one_if}
use zerokv.Arena.Kv.Entries.{slice_eq-eq}
use zerokv.Skiplist.Keys.{slice_lt}
use zerokv.Skiplist.Heap.{Heap, Run, put}
use zerokv.Skiplist.Chains.{last, Apart, Chain, All-imp}
use zerokv.Skiplist.Entries.{Entry, node_of, addrs, ids}
use zerokv.Skiplist.Layout.{stops, first, Layout, Below, Above}
use zerokv.Skiplist.Search.{Garbage, SkipList, Tower, Found, find}
use zerokv.Skiplist.Search.Walks.{on}
use zerokv.Skiplist.Search.Matches.{Chain-Loose, hits}
use zerokv.Skiplist.Search.Finds.{Clean, IsFound, find_lem}
use zerokv.Skiplist.Valid.{IsValid, Sorted, Sorted-middle, Sorted-right}
use zerokv.Skiplist.Valid.Lookups.{miss-after}
use zerokv.Skiplist.Valid.Changes.{ids_split, used_middle}
use zerokv.Skiplist.Ops.{insert_at, displaced}
use zerokv.Skiplist.Ops.Joins.{IsHalf, link_upper_lem}
use zerokv.Skiplist.Ops.Inserts.Fresh.{publish_lem}

module _ (s : SkipList) (lo hi : List Entry) (key : Bytes) (below : Below key lo)
    (above : Above key hi) (valid : IsValid s (lo ++ hi)) where
  -- The first search of an operation, in a map without marked nodes.
  pub search :
      (f : ℕ) (ps ss : Tower)
      → suc (length lo) < f
      → (r : Found) × (find f s s.heap key ps ss ≡ Run.ok (hits hi key, r))
        × IsFound key s.head valid.tail lo [] hi (suc s.max_level) s.heap ps ss r
  search f ps ss l =
      find_lem key s.head valid.tail lo [] hi f s s.heap ps ss refl (omega (arith, l)) below above
        valid.layout
        (λ k m.
          Chain-Loose (on k s.heap) s.head (ids k lo) _
            (subst (Chain (on k s.heap) s.head) (ids_split k valid.tail lo hi) (valid.linked k m)))

  -- All levels of a fresh node linked make a map with one entry more.
  grown :
      (e : Entry) (h : Heap) (be : Below e.key lo) (ae : Above e.key hi) (le : e.top ≤ s.max_level)
      → e.addr ≡ s.heap.next
      → h.next ≡ suc s.heap.next
      → All (λ d. slice_lt e.key d.key ≡ true) hi
      → IsHalf s.head valid.tail lo hi e be ae s.max_level le (suc e.top) h
      → IsValid (record s { heap = h; len = suc s.len }) (lo ++ e ∷ hi)
  grown e h be ae le q next after half = record {
    tail = valid.tail;
    layout = half.placed;
    fresh =
        used_middle s.head valid.tail lo hi e (λ a. a < h.next) (omega (arith, q, next))
          (All-imp (λ a. a < s.heap.next) (λ a. a < h.next) (λ x m. omega (arith, next, m))
            (s.head ∷ addrs (lo ++ hi) ++ stops valid.tail) valid.fresh);
    sorted = Sorted-middle lo hi e valid.sorted be after;
    linked = λ l m.
        subst (Chain (on l h) s.head) (sym (ids_split l valid.tail lo (e ∷ hi)))
          (elim (Bool-cases (leb l e.top)) [
            | inl k ↦ rw k (half.joined l (omega (arith, leb→le l e.top k)))
            | inr k ↦ rw k (half.clean l (leb-false l e.top k) m)
          ]);
    len = omega (arith, valid.len, length-append lo hi, length-append lo (e ∷ hi));
  }

  fresh-Apart : Apart s.heap.next (s.head ∷ addrs (lo ++ hi) ++ stops valid.tail)
  fresh-Apart =
      All-imp (λ a. a < s.heap.next) (λ a. s.heap.next ≢ a) (λ x m e. omega (arith, m, e))
        (s.head ∷ addrs (lo ++ hi) ++ stops valid.tail) valid.fresh

  -- `insert` of a key that is not there.
  pub insert_fresh :
      (f top : ℕ) (val : Bytes) (ps ss : Tower)
      → 2 + length lo < f
      → top ≤ s.max_level
      → hits hi key ≡ false
      → (s' : SkipList) × (insert_at f s key val top ps ss ≡ Run.ok (true, s'))
        × (s'.retired ≡ s.retired)
        × (s'.max_level ≡ s.max_level)
        × IsValid s' (lo ++ record { addr = s.heap.next; key = key; value = val; top = top } ∷ hi)
  unfolding insert_at
  insert_fresh zero top val ps ss l le miss = absurd (omega arith)
  insert_fresh (suc zero) top val ps ss l le miss = absurd (omega arith)
  insert_fresh (suc (suc f)) top val ps ss l le miss =
      let e : Entry = record { addr = s.heap.next; key = key; value = val; top = top } in
      let (r, run, found) = search (suc f) ps ss (omega arith) in
      let lay =
        subst (λ n. Layout n s.head valid.tail s.max_level (lo ++ hi)) (sym found.node)
          valid.layout in
      let (h1, made, next, half) =
        publish_lem s.head valid.tail lo hi e below above s.max_level le r.heap r.preds r.succs
          (sym found.next) fresh-Apart lay (λ k m. found.clean k (omega arith))
          (found.preds 0 (omega arith)) (found.succs 0 (omega arith)) in
      let (h2, go, same, next', done) =
        link_upper_lem s.head valid.tail lo hi e below above s.max_level le top f 1 s h1 r.preds
          r.succs (omega arith) (λ k m. found.preds k (omega arith))
          (λ k m. found.succs k (omega arith)) half in
      (
        record s { heap = h2; len = suc s.len },
        rw (run, miss, made, go) refl,
        refl,
        refl,
        grown e h2 below above le refl (next' ∙ next ∙ ap suc found.next)
            (miss-after key hi above (Sorted-right lo hi valid.sorted) miss) done,
      )
