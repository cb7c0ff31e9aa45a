-- ===== src/Index/Tests.antt =====
-- Runs of the index over association lists, in which the first pair of a key counts.
use zerokv.Prelude.{
  ℕ, ◌+◌, ◌≡◌, ◌≢◌, inl, inr, refl, sym, ap, ◌∙◌, Bool, true, false, not, Option, none, some, List,
  [], ◌∷◌, arith, if◌then◌else◌, Bool-cases,
}
use zerokv.Arena.Kv.{slice_eq}
use zerokv.Arena.Kv.Entries.{slice_eq-eq, slice_eq_refl}
use zerokv.Index.{Bytes, SkipList, IsMap, absent, one_if, new}
use zerokv.Index.Refines.{Op, put, fetch, erase, count, answers, flag, value, size, empty, serve}
use zerokv.Index.Answers.{serve-answers}

abbrev pub Pairs : Type 0
Pairs = List (Bytes × Bytes)

abbrev find : Pairs → Bytes → Option Bytes
find [] key = none
find ((k, v) ∷ s) key = let rest = find s key in if slice_eq key k then some v else rest

abbrev erased : Pairs → Bytes → Pairs
erased [] key = []
erased ((k, v) ∷ s) key = let rest = erased s key in if slice_eq k key then rest else (k, v) ∷ rest

abbrev keys : Pairs → ℕ
keys [] = 0
keys ((k, v) ∷ s) = keys s + one_if (absent (find s k))

abbrev pub pairs : SkipList Pairs
pairs = record {
  with_capacity_hint = λ _. [];
  insert = λ s k v. (absent (find s k), (k, v) ∷ s);
  get = find;
  remove = λ s k. (not (absent (find s k)), erased s k);
  len = keys;
}

slice_eq_ne : (a b : Bytes) → a ≢ b → slice_eq a b ≡ false
slice_eq_ne a b ne = elim (Bool-cases (slice_eq a b)) [
  | inl e ↦ absurd (ne (slice_eq-eq a b e))
  | inr e ↦ e
]

find-erased_same : (s : Pairs) (k : Bytes) → find (erased s k) k ≡ none
find-erased_same [] k = refl
find-erased_same ((q, v) ∷ s) k = elim (Bool-cases (slice_eq q k)) [
  | inl e ↦ rw e (find-erased_same s k)
  | inr e ↦
      rw
        (
          e,
          slice_eq_ne k q
              (λ same. true-false (sym (slice_eq_refl k) ∙ ap (λ a. slice_eq a k) same ∙ e)),
        )
        (find-erased_same s k)
]
  where
    true-false : true ≢ false
    true-false b = cc

find-erased_other : (s : Pairs) (k q : Bytes) → q ≢ k → find (erased s k) q ≡ find s q
find-erased_other [] k q ne = refl
find-erased_other ((p, v) ∷ s) k q ne = elim (Bool-cases (slice_eq p k)) [
  | inl e ↦
      rw (e, slice_eq_ne q p (λ same. ne (same ∙ slice_eq-eq p k e))) (find-erased_other s k q ne)
  | inr e ↦ rw (e, find-erased_other s k q ne)
]

keys-erased :
    (s : Pairs) (k : Bytes) → keys (erased s k) + one_if (not (absent (find s k))) ≡ keys s
keys-erased [] k = refl
keys-erased ((q, v) ∷ s) k = elim (Bool-cases (slice_eq q k)) [
  | inl e ↦
      let same = slice_eq-eq q k e in
      rw (e, ap (λ a. slice_eq k a) same ∙ slice_eq_refl k)
        (omega (
          arith,
          keys-erased s k,
          both (absent (find s k)),
          ap (λ a. one_if (absent (find s a))) same,
        ))
  | inr e ↦
      let apart : q ≢ k =
        λ same. true-false (sym (slice_eq_refl k) ∙ ap (λ a. slice_eq a k) (sym same) ∙ e) in
      rw (e, slice_eq_ne k q (λ same. apart (sym same)))
        (omega
          (arith, keys-erased s k, ap (λ o. one_if (absent o)) (find-erased_other s k q apart)))
]
  where
    true-false : true ≢ false
    true-false b = cc

    both : (b : Bool) → one_if (not b) + one_if b ≡ 1
    both true = refl
    both false = refl

pub pairs-IsMap : IsMap pairs
pairs-IsMap = record {
  Valid = λ _. Unit;
  new-Valid = λ _. tt;
  get-new = λ _ k. refl;
  len-new = λ _. refl;
  insert-Valid = λ s k v _. tt;
  insert-flag = λ s k v _. refl;
  get-insert_same = λ s k v _. rw (slice_eq_refl k) refl;
  get-insert_other = λ s k v q _ ne. rw (slice_eq_ne q k ne) refl;
  len-insert = λ s k v _. refl;
  remove-Valid = λ s k _. tt;
  remove-flag = λ s k _. refl;
  get-remove_same = λ s k _. find-erased_same s k;
  get-remove_other = λ s k q _ ne. find-erased_other s k q ne;
  len-remove = λ s k _. keys-erased s k;
}

abbrev pub ops : List Op
ops =
    put (1 ∷ []) (7 ∷ [])
    ∷ put (2 ∷ []) (8 ∷ [])
    ∷ put (1 ∷ []) (9 ∷ [])
    ∷ erase (2 ∷ [])
    ∷ fetch (1 ∷ [])
    ∷ fetch (2 ∷ [])
    ∷ count
    ∷ []

answers-ops :
    answers empty ops
    ≡ flag true
      ∷ flag true
      ∷ flag false
      ∷ flag true
      ∷ value (some (9 ∷ []))
      ∷ value none
      ∷ size 1
      ∷ []
unfolding answers slice_eq
answers-ops = refl

serve-answers_example : serve pairs (new pairs 3 100) ops ≡ some (answers empty ops)
serve-answers_example = serve-answers pairs 3 100 ops pairs-IsMap
