-- ===== src/Regbuf/Reads.antt =====
-- What a read into a registered buffer changes.
use zerokv.Prelude.{
  ℕ, ◌+◌, ◌≤◌, ◌≡◌, ◌≢◌, ◌⊎◌, inl, inr, refl, min, Option, none, some, List, length, get_elem?,
  arith,
}
use native.Mathlib.Decide.{dec_lt}
use zerokv.Memory.{Memory, read_bytes-write_bytes_disjoint}
use zerokv.Regbuf.{
  RegisteredBuffers, FixedBuf, register, File, IsFile, filled, read_fixed, as_slice,
}
use zerokv.Regbuf.Pool.{Op, run, start, held_disjoint}

filled_apart :
    (mem : Memory) (b c : FixedBuf) (got : Option (List ℕ))
    → ((bytes : List ℕ) → got ≡ some bytes → length bytes ≤ b.len)
    → (b.ptr + b.len ≤ c.ptr) ⊎ (c.ptr + c.len ≤ b.ptr)
    → as_slice (filled mem b got).1 c ≡ as_slice mem c
unfolding filled
filled_apart mem b c none short apart = refl
filled_apart mem b c (some bytes) short (inl before) =
    read_bytes-write_bytes_disjoint mem b.ptr bytes c.len c.ptr
      (inr (omega (arith, short bytes refl)))
filled_apart mem b c (some bytes) short (inr after) =
    read_bytes-write_bytes_disjoint mem b.ptr bytes c.len c.ptr (inl after)

-- After any acquires and drops on a registered pool, a read into one of the handles that are out
-- leaves the bytes of every other such handle as they were, whatever the system answers.
pub read_fixed-others :
    {S : Type 0} (file : File S) (s : S) (mem : Memory) (offset size : ℕ) (base count len : ℕ)
    (ops : List Op) (i j : ℕ) (b c : FixedBuf) {pool : RegisteredBuffers}
    → IsFile file
    → register base count len ≡ some pool
    → get_elem? (run (start pool) ops).held i ≡ some b
    → get_elem? (run (start pool) ops).held j ≡ some c
    → i ≢ j
    → as_slice (read_fixed file s mem offset b size).1 c ≡ as_slice mem c
unfolding read_fixed
read_fixed-others file s mem offset size base count len ops i j b c law e at_i at_j ne =
    filled_apart mem b c (file.read_at s offset (min size b.len))
      (λ bytes got. omega (arith, law.read s offset (min size b.len) bytes got))
      (elim (dec_lt i j) [
        | yes lt ↦ (held_disjoint base count len ops i j b c e at_i at_j lt).0
        | no ge ↦
            elim (held_disjoint base count len ops j i c b e at_j at_i (omega (arith, ne))).0 [
              | inl h ↦ inr h
              | inr h ↦ inl h
            ]
      ])
