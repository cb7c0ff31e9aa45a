-- ===== src/Regbuf.antt =====
-- crates/zerokv/src/regbuf.rs: the pool of registered buffers and the portable I/O backend.
pub mod Pool
pub mod Writes
pub mod Reads
pub mod Tests
use native.Mathlib.Nat.{le_refl}
use zerokv.Prelude.{
  ◌≤◌, ◌≡◌, ◌≢◌, ℕ, zero, suc, ◌+◌, ◌-◌, ◌*◌, ◌<◌, min, max, Bool, true, false, ◌&&◌, Option, none,
  some, List, [], ◌∷◌, ◌++◌, length, take, drop, ltb, leb, ◌==◌, if◌then◌else◌,
}
use zerokv.Words.{word, align_up}
use zerokv.Memory.{Memory, read_bytes, write_bytes}
use zerokv.Arena.{is_layout}

abbrev pub page : ℕ
page = 4096

-- `RegisteredBuffers`; `free` is the vector behind the mutex.
pub record RegisteredBuffers : Type 0 where
  pub base : ℕ
  pub buf_len : ℕ
  pub count : ℕ
  pub free : List ℕ

-- `FixedBuf`, less its reference to the pool.
pub record FixedBuf : Type 0 where
  pub index : ℕ
  pub ptr : ℕ
  pub len : ℕ

-- The indices below `n`, in order.
abbrev pub range : ℕ → List ℕ
range zero = []
range (suc n) = range n ++ n ∷ []

-- `base` comes from the allocator; `none` is a failed assertion, an overflow or an invalid layout.
unfoldable pub register : ℕ → ℕ → ℕ → Option RegisteredBuffers
unfolding is_layout
register base count buf_len =
    let rounded = align_up (max buf_len 1) page in
    if ltb 0 count
      && leb count 65535
      && ltb (count * rounded) word
      && is_layout (count * rounded) page
    then some (record { base = base; buf_len = rounded; count = count; free = range count })
    else none

-- `Vec::pop`: the last element and the others.
pub pop : List ℕ → Option (ℕ × List ℕ)
pop [] = none
pop (x ∷ []) = some (x, [])
pop (x ∷ y ∷ xs) = elim (pop (y ∷ xs)) [
  | none ↦ none
  | some (last, others) ↦ some (last, x ∷ others)
]

unfoldable pub acquire : RegisteredBuffers → Option FixedBuf × RegisteredBuffers
unfolding pop
acquire pool = elim (pop pool.free) [
  | none ↦ (none, pool)
  | some (index, others) ↦ (
    some (record { index = index; ptr = pool.base + index * pool.buf_len; len = pool.buf_len }),
    record pool { free = others },
  )
]

pub release : RegisteredBuffers → ℕ → RegisteredBuffers
release pool index = record pool { free = pool.free ++ index ∷ [] }

-- `FixedBuf::drop`.
pub drop_buf : RegisteredBuffers → FixedBuf → RegisteredBuffers
unfolding release
drop_buf pool buf = release pool buf.index

pub available : RegisteredBuffers → ℕ
available pool = length pool.free

abbrev pub as_slice : Memory → FixedBuf → List ℕ
as_slice mem buf = read_bytes mem buf.ptr buf.len

-- `io::Result<usize>`: the second error is `write_all_at`'s own.
pub data Outcome : Type 0 where
  ok : ℕ → Outcome
  os_error : Outcome
  write_zero : Outcome

-- An open file of the operating system, as far as the backend uses it.
pub record File (S : Type 0) : Type 0 where
  pub bytes : S → Memory
  pub write_at : S → List ℕ → ℕ → Outcome × S
  pub read_at : S → ℕ → ℕ → Option (List ℕ)

-- What the documentation of `write_at` and `read_at` promises: a call may transfer a part, and one
-- that fails transfers nothing.
pub record IsFile {S : Type 0} (file : File S) : Type 0 where
  pub written :
      (s s' : S) (data_ : List ℕ) (offset n : ℕ)
      → file.write_at s data_ offset ≡ (ok n, s')
      → (n ≤ length data_) × (file.bytes s' ≡ write_bytes (file.bytes s) offset (take n data_))
  pub refused :
      (s s' : S) (data_ : List ℕ) (offset : ℕ)
      → file.write_at s data_ offset ≡ (os_error, s')
      → file.bytes s' ≡ file.bytes s
  pub no_zero :
      (s s' : S) (data_ : List ℕ) (offset : ℕ) → file.write_at s data_ offset ≢ (write_zero, s')
  pub read :
      (s : S) (offset n : ℕ) (got : List ℕ) → file.read_at s offset n ≡ some got → length got ≤ n

-- What a read leaves in the buffer.
pub filled : Memory → FixedBuf → Option (List ℕ) → Option ℕ × Memory
filled mem buf none = (none, mem)
filled mem buf (some got) = (some (length got), write_bytes mem buf.ptr got)

module _ {S : Type 0} (file : File S) where
  -- The rest of a round of the loop of `write_all_at`, on what `write_at` has returned.
  unfoldable pub after_write : (S → ℕ → Option (Outcome × S)) → Outcome × S → Option (Outcome × S)
  after_write again (ok zero, s) = some (write_zero, s)
  after_write again (ok (suc n), s) = again s (suc n)
  after_write again (os_error, s) = some (os_error, s)
  after_write again (write_zero, s) = some (write_zero, s)

  -- The loop; `none` only where the fuel is used up.
  unfoldable pub write_loop : ℕ → S → List ℕ → ℕ → ℕ → Option (Outcome × S)
  unfolding after_write
  write_loop zero s bytes offset total = none
  write_loop (suc f) s [] offset total = some (ok total, s)
  write_loop (suc f) s (b ∷ bs) offset total =
      after_write (λ s' n. write_loop f s' (drop n (b ∷ bs)) (offset + n) total)
        (file.write_at s (b ∷ bs) offset)

  unfoldable pub write_all_at : S → List ℕ → ℕ → Option (Outcome × S)
  unfolding write_loop
  write_all_at s bytes offset = write_loop (suc (length bytes)) s bytes offset (length bytes)

  -- The rest of a round of the loop of `write_vectored`, on what `write_all_at` has returned.
  unfoldable pub after_slice :
      (S → ℕ → Option (Outcome × S)) → Option (Outcome × S) → Option (Outcome × S)
  after_slice again none = none
  after_slice again (some (ok n, s)) = again s n
  after_slice again (some (os_error, s)) = some (os_error, s)
  after_slice again (some (write_zero, s)) = some (write_zero, s)

  -- The loop with the values of `pos` and `total`.
  unfoldable pub write_slices : S → ℕ → ℕ → List (List ℕ) → Option (Outcome × S)
  unfolding write_all_at after_slice
  write_slices s pos total [] = some (ok total, s)
  write_slices s pos total (slice ∷ slices) =
      after_slice (λ s' n. write_slices s' (pos + n) (total + n) slices) (write_all_at s slice pos)

  unfoldable pub write_vectored : S → ℕ → List (List ℕ) → Option (Outcome × S)
  unfolding write_slices
  write_vectored s offset bufs = write_slices s offset 0 bufs

  -- `mem` is the memory of the slab; the result is the number of bytes read.
  pub read_fixed : S → Memory → ℕ → FixedBuf → ℕ → Option ℕ × Memory
  unfolding filled
  read_fixed s mem offset buf len = filled mem buf (file.read_at s offset (min len buf.len))
