-- ===== src/Skiplist/Valid/Lookups.antt =====
-- What the entries say of a key, as a list of pairs would.
use zerokv.Prelude.{
  ◌≡◌, ◌≢◌, refl, sym, ap, ◌∙◌, true, false, not, Option, none, some, List, [], ◌∷◌, ◌++◌, All,
  if◌then◌else◌, Bool-cases, inl, inr,
}
use zerokv.Index.{Bytes, absent}
use zerokv.Arena.Kv.{slice_eq}
use zerokv.Arena.Kv.Entries.{slice_eq-eq, slice_eq_refl}
use zerokv.Skiplist.Keys.{slice_lt}
use zerokv.Skiplist.Keys.Order.{slice_lt_irrefl, slice_lt_trans, slice_lt_total}
use zerokv.Skiplist.Entries.{Entry}
use zerokv.Skiplist.Layout.{Below, Above}
use zerokv.Skiplist.Search.Matches.{hits}
use zerokv.Skiplist.Search.Gets.{hit_value}
use zerokv.Skiplist.Valid.{Sorted}

-- The value of the first entry with the key.
abbrev pub lookup : List Entry → Bytes → Option Bytes
lookup [] key = none
lookup (e ∷ es) key = let rest = lookup es key in if slice_eq e.key key then some e.value else rest

false≢true : false ≢ true
false≢true e = cc

slice_eq_ne : (xs ys : Bytes) → xs ≢ ys → slice_eq xs ys ≡ false
slice_eq_ne xs ys h = elim (Bool-cases (slice_eq xs ys)) [
  | inl e ↦ absurd (h (slice_eq-eq xs ys e))
  | inr e ↦ e
]

lt-ne : (xs ys : Bytes) → slice_lt xs ys ≡ true → xs ≢ ys
lt-ne xs ys h e = false≢true (sym (slice_lt_irrefl ys) ∙ rw e at h)

lookup-Below :
    (key : Bytes) (xs ys : List Entry) → Below key xs → lookup (xs ++ ys) key ≡ lookup ys key
lookup-Below key [] ys b = refl
lookup-Below key (x ∷ xs) ys b =
    rw (slice_eq_ne x.key key (lt-ne x.key key b.0)) (lookup-Below key xs ys b.1)

lookup-beyond :
    (key : Bytes) (ys : List Entry) → All (λ d. slice_lt key d.key ≡ true) ys → lookup ys key ≡ none
lookup-beyond key [] a = refl
lookup-beyond key (y ∷ ys) a =
    rw (slice_eq_ne y.key key (λ e. lt-ne key y.key a.0 (sym e))) (lookup-beyond key ys a.1)

after_trans :
    (key : Bytes) (y : Entry) (ys : List Entry)
    → slice_lt key y.key ≡ true
    → All (λ d. slice_lt y.key d.key ≡ true) ys
    → All (λ d. slice_lt key d.key ≡ true) ys
after_trans key y [] k h = tt
after_trans key y (d ∷ ys) k h = (slice_lt_trans key y.key d.key k h.0, after_trans key y ys k h.1)

-- An entry that is not before the target and does not have its key is after it.
pub miss-after :
    (key : Bytes) (ys : List Entry)
    → Above key ys
    → Sorted ys
    → hits ys key ≡ false
    → All (λ d. slice_lt key d.key ≡ true) ys
miss-after key [] a s h = tt
miss-after key (y ∷ ys) a s h =
    let first : slice_lt key y.key ≡ true = elim (Bool-cases (slice_lt key y.key)) [
      | inl e ↦ e
      | inr e ↦ absurd (
          false≢true (
            sym h
            ∙ ap (λ k. slice_eq y.key k) (sym (slice_lt_total y.key key a.0 e))
            ∙ slice_eq_refl y.key))
    ] in
    (first, after_trans key y ys first s.0)

pub hit_value-lookup :
    (key : Bytes) (xs ys : List Entry)
    → Below key xs
    → Above key ys
    → Sorted ys
    → hit_value ys key ≡ lookup (xs ++ ys) key
hit_value-lookup key xs [] b a s = sym (lookup-Below key xs [] b)
hit_value-lookup key xs (y ∷ ys) b a s = elim (Bool-cases (slice_eq y.key key)) [
  | inl e ↦ rw (lookup-Below key xs (y ∷ ys) b, e) refl
  | inr e ↦
      rw (lookup-Below key xs (y ∷ ys) b, e)
        (sym (lookup-beyond key ys (miss-after key (y ∷ ys) a s e).1))
]

-- Whether the first entry has the key says whether the key is there at all.
pub hits-absent : (key : Bytes) (ys : List Entry) → hits ys key ≡ not (absent (hit_value ys key))
hits-absent key [] = refl
hits-absent key (y ∷ ys) = elim (Bool-cases (slice_eq y.key key)) [
  | inl e ↦ rw e refl
  | inr e ↦ rw e refl
]

-- An entry in the middle answers for its own key and for no other.
pub lookup-middle_same :
    (xs ys : List Entry) (e : Entry) → Below e.key xs → lookup (xs ++ e ∷ ys) e.key ≡ some e.value
lookup-middle_same xs ys e b = rw (lookup-Below e.key xs (e ∷ ys) b, slice_eq_refl e.key) refl

pub lookup-middle_other :
    (xs ys : List Entry) (e : Entry) (q : Bytes)
    → e.key ≢ q
    → lookup (xs ++ e ∷ ys) q ≡ lookup (xs ++ ys) q
lookup-middle_other [] ys e q n = rw (slice_eq_ne e.key q n) refl
lookup-middle_other (x ∷ xs) ys e q n = elim (Bool-cases (slice_eq x.key q)) [
  | inl k ↦ rw k refl
  | inr k ↦ rw k (lookup-middle_other xs ys e q n)
]

pub lookup-without_same :
    (xs ys : List Entry) (key : Bytes)
    → Below key xs
    → All (λ d. slice_lt key d.key ≡ true) ys
    → lookup (xs ++ ys) key ≡ none
lookup-without_same xs ys key b a = rw (lookup-Below key xs ys b) (lookup-beyond key ys a)
