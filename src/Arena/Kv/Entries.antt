-- ===== src/Arena/Kv/Entries.antt =====
-- Entries whose spans hold the pairs that were put.
use zerokv.Prelude.{
  ℕ, ◌≡◌, inl, inr, refl, ap₂, ◌∙◌, true, false, Option, none, some, List, [], ◌∷◌, ◌++◌, arith,
  if◌then◌else◌, Bool-cases, ==_iff, ==_refl, ◌==◌, ◌≢◌,
}
use zerokv.Memory.{read_bytes}
use zerokv.Arena.{Arena}
use zerokv.Arena.Pushes.{IsUsed, Pushed}
use zerokv.Arena.Kv.{Entry, new, scan, slice_eq}

pub slice_eq-eq : (xs ys : List ℕ) → slice_eq xs ys ≡ true → xs ≡ ys
unfolding slice_eq
slice_eq-eq [] [] h = refl
slice_eq-eq [] (y ∷ ys) h = cc
slice_eq-eq (x ∷ xs) [] h = cc
slice_eq-eq (x ∷ xs) (y ∷ ys) h = elim (Bool-cases (x == y)) [
  | inl e ↦ ap₂ (λ (z : ℕ) (zs : List ℕ). z ∷ zs) ((==_iff x y).0 e) (slice_eq-eq xs ys (rw e at h))
  | inr e ↦ absurd (false-true (rw e at h))
]
  where
    false-true : false ≢ true
    false-true e = cc

pub slice_eq_refl : (xs : List ℕ) → slice_eq xs xs ≡ true
unfolding slice_eq
slice_eq_refl [] = refl
slice_eq_refl (x ∷ xs) = rw (==_refl x) (slice_eq_refl xs)

-- An entry whose spans hold a key and a value.
pub record IsEntry (a : Arena) (e : Entry) (key val : List ℕ) : Type 0 where
  pub key_used : IsUsed a e.key_at e.key_len
  pub val_used : IsUsed a e.val_at e.val_len
  pub key_read : read_bytes a.mem e.key_at e.key_len ≡ key
  pub val_read : read_bytes a.mem e.val_at e.val_len ≡ val

-- The entries of the store hold the pairs that were put, in order.
abbrev pub Entries : Arena → List Entry → List (List ℕ × List ℕ) → Type 0
Entries a [] [] = Unit
Entries a [] (_ ∷ _) = ⊥
Entries a (_ ∷ _) [] = ⊥
Entries a (e ∷ es) ((key, val) ∷ kvs) = IsEntry a e key val × Entries a es kvs

-- The value of the first pair with the key.
pub first_value : List (List ℕ × List ℕ) → List ℕ → Option (List ℕ)
first_value [] key = none
first_value ((k, v) ∷ kvs) key =
    let rest = first_value kvs key in if slice_eq k key then some v else rest

pub scan-Entries :
    (a : Arena) (es : List Entry) (kvs : List (List ℕ × List ℕ)) (key : List ℕ)
    → Entries a es kvs
    → scan a.mem es key ≡ first_value kvs key
unfolding scan first_value
scan-Entries a [] [] key h = refl
scan-Entries a [] (kv ∷ kvs) key h = absurd h
scan-Entries a (e ∷ es) [] key h = absurd h
scan-Entries a (e ∷ es) ((k, v) ∷ kvs) key h =
    rw (h.0.key_read, h.0.val_read, scan-Entries a es kvs key h.1)

module _ {a a' : Arena} {bytes : List ℕ} {r : Option (ℕ × ℕ)} (p : Pushed a bytes r a') where
  pub IsUsed-later : (q n : ℕ) → IsUsed a q n → IsUsed a' q n
  IsUsed-later q n (inl e) = inl e
  IsUsed-later q n (inr h) = inr (omega (arith, p.based, p.grown))

  pub Entries-later :
      (es : List Entry) (kvs : List (List ℕ × List ℕ)) → Entries a es kvs → Entries a' es kvs
  Entries-later [] [] h = tt
  Entries-later [] (kv ∷ kvs) h = h
  Entries-later (e ∷ es) [] h = h
  Entries-later (e ∷ es) ((k, v) ∷ kvs) h = (
    record {
      key_used = IsUsed-later e.key_at e.key_len h.0.key_used;
      val_used = IsUsed-later e.val_at e.val_len h.0.val_used;
      key_read = p.kept e.key_at e.key_len h.0.key_used ∙ h.0.key_read;
      val_read = p.kept e.val_at e.val_len h.0.val_used ∙ h.0.val_read;
    },
    Entries-later es kvs h.1,
  )

pub Entries-append :
    (a : Arena) (es : List Entry) (kvs : List (List ℕ × List ℕ)) (e : Entry) (key val : List ℕ)
    → Entries a es kvs
    → IsEntry a e key val
    → Entries a (es ++ e ∷ []) (kvs ++ (key, val) ∷ [])
Entries-append a [] [] e key val h new = (new, tt)
Entries-append a [] (kv ∷ kvs) e key val h new = absurd h
Entries-append a (x ∷ es) [] e key val h new = absurd h
Entries-append a (x ∷ es) ((k, v) ∷ kvs) e key val h new =
    (h.0, Entries-append a es kvs e key val h.1 new)
