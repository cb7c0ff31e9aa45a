-- ===== src/Commit/Members.antt =====
-- Records in stacks and batches, and sorting them.
use zerokv.Prelude.{
  ℕ, ◌+◌, ◌≤◌, ◌≡◌, ◌⊎◌, inl, inr, refl, sym, ap, ap₂, ◌∙◌, subst, false, List, [], ◌∷◌, ◌++◌,
  length, length-append, leb, Bool-cases, arith, take, drop, take-length_append, drop-length_append,
}
use zerokv.Memory.{Memory, read_bytes, read_bytes-append, length-read_bytes}
use zerokv.Regbuf.Writes.{flat}
use zerokv.Commit.{Pending, insert_by_seq, sort_by_seq, slices, total}

abbrev pub Mem : Pending → List Pending → Type 0
Mem p [] = ⊥
Mem p (q ∷ xs) = (p ≡ q) ⊎ Mem p xs

Mem-insert : (p q : Pending) (xs : List Pending) → (p ≡ q) ⊎ Mem p xs → Mem p (insert_by_seq q xs)
Mem-insert p q [] h = h
Mem-insert p q (x ∷ xs) h = elim (Bool-cases (leb q.seq x.seq)) [
  | inl e ↦ rw e h
  | inr e ↦ rw e (elim h [
    | inl here ↦ inr (Mem-insert p q xs (inl here))
    | inr there ↦ elim there [ inl head ↦ inl head | inr tail ↦ inr (Mem-insert p q xs (inr tail)) ]
  ])
]

Mem_of_insert :
    (p q : Pending) (xs : List Pending) → Mem p (insert_by_seq q xs) → (p ≡ q) ⊎ Mem p xs
Mem_of_insert p q [] h = h
Mem_of_insert p q (x ∷ xs) h = elim (Bool-cases (leb q.seq x.seq)) [
  | inl e ↦ rw e at h
  | inr e ↦ elim (the_case e h) [
    | inl head ↦ inr (inl head)
    | inr tail ↦ elim (Mem_of_insert p q xs tail) [
      | inl here ↦ inl here
      | inr there ↦ inr (inr there)
    ]
  ]
]
  where
    the_case :
        leb q.seq x.seq ≡ false
        → Mem p (insert_by_seq q (x ∷ xs))
        → (p ≡ x) ⊎ Mem p (insert_by_seq q xs)
    the_case e m = rw e at m

pub Mem-sort : (p : Pending) (xs : List Pending) → Mem p xs → Mem p (sort_by_seq xs)
Mem-sort p [] h = h
Mem-sort p (x ∷ xs) (inl here) = Mem-insert p x (sort_by_seq xs) (inl here)
Mem-sort p (x ∷ xs) (inr there) = Mem-insert p x (sort_by_seq xs) (inr (Mem-sort p xs there))

pub Mem_of_sort : (p : Pending) (xs : List Pending) → Mem p (sort_by_seq xs) → Mem p xs
Mem_of_sort p [] h = h
Mem_of_sort p (x ∷ xs) h = elim (Mem_of_insert p x (sort_by_seq xs) h) [
  | inl here ↦ inl here
  | inr there ↦ inr (Mem_of_sort p xs there)
]

pub total-flat : (batch : List Pending) → length (flat (slices batch)) ≡ total batch
total-flat [] = refl
total-flat (p ∷ batch) =
    omega (arith, length-append p.bytes (flat (slices batch)), total-flat batch)

-- Where in a memory the bytes of a record lie, below `end`.
pub record Lies (mem : Memory) (end : ℕ) (p : Pending) : Type 0 where
  pub place : ℕ
  pub below : place + length p.bytes ≤ end
  pub reads : read_bytes mem place (length p.bytes) ≡ p.bytes

-- Every record of a batch lies in the memory that starts with the bytes of the batch.
pub slices-Lies :
    (mem : Memory) (off end : ℕ) (batch : List Pending)
    → off + total batch ≤ end
    → read_bytes mem off (total batch) ≡ flat (slices batch)
    → (p : Pending) → Mem p batch
    → Lies mem end p
slices-Lies mem off end [] within e p h = absurd h
slices-Lies mem off end (q ∷ batch) within e p h = elim h [
  | inl here ↦ record {
    place = off;
    below = omega (arith, ap (λ (o : Pending). length o.bytes) here);
    reads = subst (λ (o : Pending). read_bytes mem off (length o.bytes) ≡ o.bytes) (sym here) first;
  }
  | inr there ↦ slices-Lies mem (off + length q.bytes) end batch (omega arith) second p there
]
  where
    both :
        read_bytes mem off (length q.bytes) ++ read_bytes mem (off + length q.bytes) (total batch)
        ≡ q.bytes ++ flat (slices batch)
    both = sym (read_bytes-append mem off (length q.bytes) (total batch)) ∙ e

    sized : length (read_bytes mem off (length q.bytes)) ≡ length q.bytes
    sized = length-read_bytes mem off (length q.bytes)

    first : read_bytes mem off (length q.bytes) ≡ q.bytes
    first =
        sym (take-length_append (read_bytes mem off (length q.bytes)) _)
        ∙ ap₂ (λ n (l : List ℕ). take n l) sized both
        ∙ take-length_append q.bytes (flat (slices batch))

    second : read_bytes mem (off + length q.bytes) (total batch) ≡ flat (slices batch)
    second =
        sym (drop-length_append (read_bytes mem off (length q.bytes)) _)
        ∙ ap₂ (λ n (l : List ℕ). drop n l) sized both
        ∙ drop-length_append q.bytes (flat (slices batch))
