-- ===== src/Skiplist/Maps.antt =====
-- What an insertion and a removal change in what a map answers.
pub mod Whole
use zerokv.Prelude.{
  ℕ, zero, suc, ◌+◌, ◌-◌, ◌≤◌, ◌<◌, ◌≡◌, ◌≢◌, refl, sym, ap, subst, ◌∙◌, Bool, true, false, not,
  Option, none, some, List, [], ◌∷◌, ◌++◌, length, length-append, All, arith, inl, inr, Bool-cases,
  if◌then◌else◌,
}
use zerokv.Index.{Bytes, absent, one_if}
use zerokv.Arena.Kv.{slice_eq}
use zerokv.Arena.Kv.Entries.{slice_eq-eq, slice_eq_refl}
use zerokv.Skiplist.Keys.{slice_lt}
use zerokv.Skiplist.Heap.{Heap, Run}
use zerokv.Skiplist.Chains.{Apart, Chain}
use zerokv.Skiplist.Entries.{Entry, addrs, ids}
use zerokv.Skiplist.Layout.{stops, Below, Above}
use zerokv.Skiplist.Search.{Garbage, SkipList, Tower, nulls, get}
use zerokv.Skiplist.Search.Walks.{on}
use zerokv.Skiplist.Search.Matches.{hits}
use zerokv.Skiplist.Search.Gets.{hit_value, get_lem}
use zerokv.Skiplist.Valid.{
  IsValid, Sorted, Sorted-right, before, since, before-since, before-Below, since-Above,
}
use zerokv.Skiplist.Valid.Lookups.{
  lookup, hit_value-lookup, hits-absent, lookup-middle_same, lookup-middle_other,
  lookup-without_same, miss-after,
}
use zerokv.Skiplist.Valid.Changes.{ids_split}
use zerokv.Skiplist.Ops.{insert_at, remove, displaced}
use zerokv.Skiplist.Ops.Inserts.{insert_fresh}
use zerokv.Skiplist.Ops.Updates.{insert_present, exchanged}
use zerokv.Skiplist.Ops.Removes.{remove_absent, remove_present}

-- A map that holds `es'` where it held `es`, with `val` for `key`: what it answers, and its size.
pub record IsInserted (es es' : List Entry) (key val : Bytes) : Type 0 where
  pub answers : (q : Bytes) → lookup es' q ≡ (if slice_eq key q then some val else lookup es q)
  pub grows : length es' ≡ length es + one_if (absent (lookup es key))

pub record IsRemoved (es es' : List Entry) (key : Bytes) : Type 0 where
  pub answers : (q : Bytes) → lookup es' q ≡ (if slice_eq key q then none else lookup es q)
  pub shrinks : length es' + one_if (not (absent (lookup es key))) ≡ length es

-- One key apart, two lists of entries answer alike.
false≢true : false ≢ true
false≢true e = cc

pub answers_by :
    (es es' : List Entry) (key : Bytes) (o : Option Bytes)
    → lookup es' key ≡ o
    → ((q : Bytes) → q ≢ key → lookup es' q ≡ lookup es q)
    → (q : Bytes) → lookup es' q ≡ (if slice_eq key q then o else lookup es q)
answers_by es es' key o same other q = elim (Bool-cases (slice_eq key q)) [
  | inl e ↦ rw e (subst (λ k. lookup es' k ≡ o) (slice_eq-eq key q e) same)
  | inr e ↦ rw e (other q (λ k. differ (sym (ap (λ z. slice_eq key z) k) ∙ e)))
]
  where
    differ : slice_eq key key ≡ false → ⊥
    differ h = absurd (false≢true (sym h ∙ slice_eq_refl key))

pub miss_none : (key : Bytes) (hi : List Entry) → hits hi key ≡ false → hit_value hi key ≡ none
miss_none key [] h = refl
miss_none key (x ∷ hi) h = rw h refl

-- What a map makes of one entry that is put in, exchanged or taken out.
module _ (lo hi : List Entry) (key : Bytes) (below : Below key lo) where
  pub put_in :
      (e : Entry)
      → key ≡ e.key
      → lookup (lo ++ hi) key ≡ none
      → IsInserted (lo ++ hi) (lo ++ e ∷ hi) key e.value
  put_in e q l = record {
    answers =
        answers_by (lo ++ hi) (lo ++ e ∷ hi) key (some e.value)
          (subst (λ k. lookup (lo ++ e ∷ hi) k ≡ some e.value) (sym q)
            (lookup-middle_same lo hi e (subst (λ k. Below k lo) q below)))
          (λ r n. lookup-middle_other lo hi e r (λ c. n (sym c ∙ sym q)));
    grows = rw l (omega (arith, length-append lo hi, length-append lo (e ∷ hi)));
  }

  pub exchanged_in :
      (x e : Entry)
      → x.key ≡ key
      → key ≡ e.key
      → lookup (lo ++ x ∷ hi) key ≡ some x.value
      → IsInserted (lo ++ x ∷ hi) (lo ++ e ∷ hi) key e.value
  exchanged_in x e p q l = record {
    answers =
        answers_by (lo ++ x ∷ hi) (lo ++ e ∷ hi) key (some e.value)
          (subst (λ k. lookup (lo ++ e ∷ hi) k ≡ some e.value) (sym q)
            (lookup-middle_same lo hi e (subst (λ k. Below k lo) q below)))
          (λ r n.
            lookup-middle_other lo hi e r (λ c. n (sym c ∙ sym q))
            ∙ sym (lookup-middle_other lo hi x r (λ c. n (sym c ∙ p))));
    grows = rw l (omega (arith, length-append lo (x ∷ hi), length-append lo (e ∷ hi)));
  }

  pub taken_out :
      (x : Entry)
      → x.key ≡ key
      → lookup (lo ++ x ∷ hi) key ≡ some x.value
      → Sorted (x ∷ hi)
      → IsRemoved (lo ++ x ∷ hi) (lo ++ hi) key
  taken_out x p l s = record {
    answers =
        answers_by (lo ++ x ∷ hi) (lo ++ hi) key none
          (lookup-without_same lo hi key below
            (subst (λ k. All (λ d. slice_lt k d.key ≡ true) hi) p s.0))
          (λ r n. sym (lookup-middle_other lo hi x r (λ c. n (sym c ∙ p))));
    shrinks = rw l (omega (arith, length-append lo (x ∷ hi), length-append lo hi));
  }
