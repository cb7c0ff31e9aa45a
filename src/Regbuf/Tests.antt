-- ===== src/Regbuf/Tests.antt =====
-- Runs of the pool and of the backend on small inputs.
use zerokv.Prelude.{
  ℕ, ◌+◌, ◌*◌, ◌≤◌, ◌≡◌, ◌⊎◌, ◌↔◌, refl, ap, sym, ◌∙◌, ◌≢◌, none, some, List, [], ◌∷◌, length, take,
  arith, min,
}
use zerokv.Words.{align_up}
use zerokv.Memory.{Memory, read_bytes, write_bytes, length-read_bytes}
use mathlib.Core.Option.{some-injective}
use zerokv.Arena.{is_layout, is_power_of_two}
use zerokv.Regbuf.{
  RegisteredBuffers, drop_buf, FixedBuf, register, acquire, available, Outcome, ok, os_error,
  write_zero, File, IsFile, write_vectored, read_fixed, as_slice,
}
use zerokv.Regbuf.Pool.{Op, step, take_one, give_back, run, start, held_disjoint, acquire-eq_none}
use zerokv.Regbuf.Writes.{Finishes, flat, write_vectored-Sent}
use zerokv.Regbuf.Reads.{read_fixed-others}

-- Two buffers of one page.
abbrev pool : RegisteredBuffers
pool = record { base = 8192; buf_len = 4096; count = 2; free = 0 ∷ 1 ∷ [] }

abbrev ops : List Op
ops = take_one ∷ take_one ∷ take_one ∷ give_back 0 ∷ take_one ∷ []

registered : register 8192 2 100 ≡ some pool
unfolding register is_layout align_up is_power_of_two
registered = refl

abbrev low : FixedBuf
low = record { index = 0; ptr = 8192; len = 4096 }

abbrev high : FixedBuf
high = record { index = 1; ptr = 12288; len = 4096 }

run-ops : (run (start pool) ops).held ≡ low ∷ high ∷ []
unfolding run acquire step drop_buf
run-ops = refl

held_disjoint_example :
    ((low.ptr + low.len ≤ high.ptr) ⊎ (high.ptr + high.len ≤ low.ptr))
    × (8192 ≤ low.ptr)
    × (low.ptr + low.len ≤ 8192 + 2 * pool.buf_len)
unfolding register is_layout align_up is_power_of_two run acquire step drop_buf
held_disjoint_example =
    held_disjoint 8192 2 100 ops 0 1 low high {pool = pool} refl refl refl (omega arith)

acquire-eq_none_example :
    ((acquire (run (start pool) ops).pool).0 ≡ none ↔ length (run (start pool) ops).held ≡ 2)
    × (available (run (start pool) ops).pool + length (run (start pool) ops).held ≡ 2)
unfolding register is_layout align_up is_power_of_two
acquire-eq_none_example = acquire-eq_none 8192 2 100 ops {pool = pool} refl

-- A file whose system writes one byte at a time, and reads what it is asked for.
abbrev pub slow : File Memory
slow = record {
  bytes = λ m. m;
  write_at = λ m bytes offset.
      (ok (min 1 (length bytes)), write_bytes m offset (take (min 1 (length bytes)) bytes));
  read_at = λ m offset n. some (read_bytes m offset n);
}

abbrev count : Outcome × Memory → ℕ
count (ok n, s) = n
count (os_error, s) = 0
count (write_zero, s) = 0

pub slow-IsFile : IsFile slow
slow-IsFile = record {
  written = λ s s' bytes offset n e. (
    omega (arith, ap count e),
    sym (ap (λ (r : Outcome × Memory). r.1) e)
        ∙ ap (λ m. write_bytes s offset (take m bytes)) (ap count e),
  );
  refused = λ s s' bytes offset e. absurd (ok-os_error (ap (λ (r : Outcome × Memory). r.0) e));
  no_zero = λ s s' bytes offset e. ok-write_zero (ap (λ (r : Outcome × Memory). r.0) e);
  read = λ s offset n got e.
      omega (arith, ap length (some-injective _ _ e), length-read_bytes s offset n);
}
  where
    ok-os_error : {n : ℕ} → ok n ≢ os_error
    ok-os_error e = cc

    ok-write_zero : {n : ℕ} → ok n ≢ write_zero
    ok-write_zero e = cc

abbrev bufs : List (List ℕ)
bufs = (1 ∷ 2 ∷ []) ∷ (3 ∷ []) ∷ []

write_vectored-Sent_example :
    Finishes slow (write_vectored slow (λ _. 0) 5 bufs) (λ _. 0) (flat bufs) 5 (length (flat bufs))
write_vectored-Sent_example = write_vectored-Sent slow (λ _. 0) 5 bufs slow-IsFile

read_fixed-others_example :
    as_slice (read_fixed slow (λ n. n) (λ _. 0) 7 low 3).1 high ≡ as_slice (λ _. 0) high
unfolding register is_layout align_up is_power_of_two run acquire step drop_buf
read_fixed-others_example =
    read_fixed-others slow (λ n. n) (λ _. 0) 7 3 8192 2 100 ops 0 1 low high {pool = pool}
      slow-IsFile refl refl refl (λ e. absurd (omega arith))
