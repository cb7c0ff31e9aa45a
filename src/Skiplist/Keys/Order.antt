-- ===== src/Skiplist/Keys/Order.antt =====
-- The order of keys, and keys read back from nodes.
use zerokv.Prelude.{
  ℕ, ◌<◌, ◌≡◌, ◌⊎◌, inl, inr, refl, ap₂, ◌∙◌, true, false, [], ◌∷◌, length, take-length_append, leb,
  ltb, lt→ltb, Bool-cases, arith,
}
use zerokv.Index.{Bytes}
use zerokv.Skiplist.Keys.{inline_cap, new_key, as_bytes, slice_lt}

-- A key is read back from a node as it was put in, short or long.
pub as_bytes-new_key : (key : Bytes) → as_bytes (new_key key) ≡ key
unfolding as_bytes new_key
as_bytes-new_key key = elim (Bool-cases (leb (length key) inline_cap)) [
  | inl e ↦ rw e (take-length_append key _)
  | inr e ↦ rw e refl
]

ltb_irrefl : (x : ℕ) → ltb x x ≡ false
ltb_irrefl x = ground arith

pub slice_lt_irrefl : (xs : Bytes) → slice_lt xs xs ≡ false
unfolding slice_lt
slice_lt_irrefl [] = refl
slice_lt_irrefl (x ∷ xs) = rw (ltb_irrefl x) (slice_lt_irrefl xs)

-- What a first difference decides.
slice_lt-cons :
    (x y : ℕ) (xs ys : Bytes)
    → slice_lt (x ∷ xs) (y ∷ ys) ≡ true
    → (x < y) ⊎ ((x ≡ y) × (slice_lt xs ys ≡ true))
unfolding slice_lt
slice_lt-cons x y xs ys h = ground arith

slice_lt_head : (x y : ℕ) (xs ys : Bytes) → x < y → slice_lt (x ∷ xs) (y ∷ ys) ≡ true
unfolding slice_lt
slice_lt_head x y xs ys h = rw (lt→ltb x y h) refl

slice_lt_tail :
    (x y : ℕ) (xs ys : Bytes) → x ≡ y → slice_lt xs ys ≡ true → slice_lt (x ∷ xs) (y ∷ ys) ≡ true
unfolding slice_lt
slice_lt_tail x y xs ys e h = rw e (rw (ltb_irrefl y) h)

pub slice_lt_trans :
    (xs ys zs : Bytes) → slice_lt xs ys ≡ true → slice_lt ys zs ≡ true → slice_lt xs zs ≡ true
unfolding slice_lt
slice_lt_trans [] [] zs h k = cc
slice_lt_trans [] (y ∷ ys) [] h k = cc
slice_lt_trans [] (y ∷ ys) (z ∷ zs) h k = refl
slice_lt_trans (x ∷ xs) [] zs h k = cc
slice_lt_trans (x ∷ xs) (y ∷ ys) [] h k = cc
slice_lt_trans (x ∷ xs) (y ∷ ys) (z ∷ zs) h k = elim (slice_lt-cons x y xs ys h) [
  | inl a ↦ elim (slice_lt-cons y z ys zs k) [
    | inl b ↦ slice_lt_head x z xs zs (omega arith)
    | inr b ↦ slice_lt_head x z xs zs (omega (arith, b.0))
  ]
  | inr a ↦ elim (slice_lt-cons y z ys zs k) [
    | inl b ↦ slice_lt_head x z xs zs (omega (arith, a.0))
    | inr b ↦ slice_lt_tail x z xs zs (a.0 ∙ b.0) (slice_lt_trans xs ys zs a.1 b.1)
  ]
]

-- Keys that are in neither order are equal.
pub slice_lt_total : (xs ys : Bytes) → slice_lt xs ys ≡ false → slice_lt ys xs ≡ false → xs ≡ ys
unfolding slice_lt
slice_lt_total [] [] h k = refl
slice_lt_total [] (y ∷ ys) h k = cc
slice_lt_total (x ∷ xs) [] h k = cc
slice_lt_total (x ∷ xs) (y ∷ ys) h k =
    ap₂ (λ (z : ℕ) (zs : Bytes). z ∷ zs) parts.0 (slice_lt_total xs ys parts.1 parts.2)
  where
    parts : (x ≡ y) × (slice_lt xs ys ≡ false) × (slice_lt ys xs ≡ false)
    parts = ground arith
