-- ===== src/Memory.antt =====
-- Bytes by address: the raw copies and slices of the allocations.
use zerokv.Prelude.{
  ℕ, zero, suc, ◌+◌, ◌≤◌, ◌<◌, ◌≡◌, ◌⊎◌, inl, inr, refl, ap, ◌∙◌, List, [], ◌∷◌, ◌++◌, length,
  arith, ◌==◌, if◌then◌else◌, ==_refl, ==_ne,
}

abbrev pub Memory : Type 0
Memory = ℕ → ℕ

abbrev pub store : Memory → ℕ → ℕ → Memory
store mem p b q = if p == q then b else mem q

-- `copy_nonoverlapping` of `bytes` to address `p`.
unfoldable pub write_bytes : Memory → ℕ → List ℕ → Memory
write_bytes mem p [] = mem
write_bytes mem p (b ∷ bytes) = write_bytes (store mem p b) (suc p) bytes

-- The slice of `n` bytes at address `p`.
unfoldable pub read_bytes : Memory → ℕ → ℕ → List ℕ
read_bytes mem p zero = []
read_bytes mem p (suc n) = mem p ∷ read_bytes mem (suc p) n

write_bytes-below :
    (mem : Memory) (p : ℕ) (bytes : List ℕ) (q : ℕ) → q < p → write_bytes mem p bytes q ≡ mem q
unfolding write_bytes
write_bytes-below mem p [] q h = refl
write_bytes-below mem p (b ∷ bytes) q h =
    write_bytes-below (store mem p b) (suc p) bytes q (omega arith) ∙ rw (==_ne p q (omega arith))

write_bytes-above :
    (mem : Memory) (p : ℕ) (bytes : List ℕ) (q : ℕ)
    → p + length bytes ≤ q
    → write_bytes mem p bytes q ≡ mem q
unfolding write_bytes
write_bytes-above mem p [] q h = refl
write_bytes-above mem p (b ∷ bytes) q h =
    write_bytes-above (store mem p b) (suc p) bytes q (omega arith) ∙ rw (==_ne p q (omega arith))

-- A copy is read back whole.
pub read_bytes-write_bytes :
    (mem : Memory) (p : ℕ) (bytes : List ℕ)
    → read_bytes (write_bytes mem p bytes) p (length bytes) ≡ bytes
unfolding write_bytes read_bytes
read_bytes-write_bytes mem p [] = refl
read_bytes-write_bytes mem p (b ∷ bytes) = rw (
  write_bytes-below (store mem p b) (suc p) bytes p (omega arith),
  ==_refl p,
  read_bytes-write_bytes (store mem p b) (suc p) bytes,
)

-- A slice that a copy does not touch reads as before.
pub read_bytes-write_bytes_disjoint :
    (mem : Memory) (p : ℕ) (bytes : List ℕ) (n q : ℕ)
    → (q + n ≤ p) ⊎ (p + length bytes ≤ q)
    → read_bytes (write_bytes mem p bytes) q n ≡ read_bytes mem q n
unfolding read_bytes
read_bytes-write_bytes_disjoint mem p bytes zero q h = refl
read_bytes-write_bytes_disjoint mem p bytes (suc n) q (inl below) = rw (
  write_bytes-below mem p bytes q (omega arith),
  read_bytes-write_bytes_disjoint mem p bytes n (suc q) (inl (omega arith)),
)
read_bytes-write_bytes_disjoint mem p bytes (suc n) q (inr above) = rw (
  write_bytes-above mem p bytes q above,
  read_bytes-write_bytes_disjoint mem p bytes n (suc q) (inr (omega arith)),
)

-- Two copies, the second behind the first, are one.
pub write_bytes-append :
    (mem : Memory) (p : ℕ) (xs ys : List ℕ)
    → write_bytes (write_bytes mem p xs) (p + length xs) ys ≡ write_bytes mem p (xs ++ ys)
unfolding write_bytes
write_bytes-append mem p [] ys = ap (λ q. write_bytes mem q ys) (omega arith)
write_bytes-append mem p (x ∷ xs) ys =
    ap (λ q. write_bytes (write_bytes (store mem p x) (suc p) xs) q ys) (omega arith)
    ∙ write_bytes-append (store mem p x) (suc p) xs ys

pub read_bytes-append :
    (mem : Memory) (p m n : ℕ)
    → read_bytes mem p (m + n) ≡ read_bytes mem p m ++ read_bytes mem (p + m) n
unfolding read_bytes
read_bytes-append mem p zero n = rw (omega_zero_add n, omega_add_zero p)
  where
    omega_zero_add : (a : ℕ) → zero + a ≡ a
    omega_zero_add a = omega arith

    omega_add_zero : (a : ℕ) → a + zero ≡ a
    omega_add_zero a = omega arith
read_bytes-append mem p (suc m) n =
    rw (split, read_bytes) (rw (read_bytes-append mem (suc p) m n, shift))
  where
    split : suc m + n ≡ suc (m + n)
    split = omega arith

    shift : suc p + m ≡ p + suc m
    shift = omega arith

pub length-read_bytes : (mem : Memory) (p n : ℕ) → length (read_bytes mem p n) ≡ n
unfolding read_bytes
length-read_bytes mem p zero = refl
length-read_bytes mem p (suc n) = ap suc (length-read_bytes mem (suc p) n)
