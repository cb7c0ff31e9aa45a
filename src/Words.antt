-- ===== src/Words.antt =====
-- 64-bit words: wrapping arithmetic, masks, and `next_power_of_two` of the standard library.
pub mod Mask
pub mod Align
use zerokv.Prelude.{
  ℕ, zero, suc, ◌+◌, ◌-◌, ◌*◌, ◌%◌, ◌^◌, ◌≤◌, ◌<◌, ◌≡◌, arith, leb, if◌then◌else◌, refl, bit_and,
}

-- The modulus of `u64` and of `usize` on a 64-bit target.
abbrev pub word : ℕ
word = 2 ^ 64

abbrev pub wrapping_add : ℕ → ℕ → ℕ
wrapping_add a b = (a + b) % word

abbrev pub wrapping_sub : ℕ → ℕ → ℕ
wrapping_sub a b = (a + word - b) % word

abbrev pub wrapping_mul : ℕ → ℕ → ℕ
wrapping_mul a b = a * b % word

-- Doubling from `p` until `n` fits; the fuel `n` is enough, since `n ≤ 2 ^ n`.
double_up : ℕ → ℕ → ℕ → ℕ
double_up zero p n = p
double_up (suc f) p n = let rest = double_up f (2 * p) n in if leb n p then p else rest

unfoldable pub next_power_of_two : ℕ → ℕ
unfolding double_up
next_power_of_two n = double_up n 1 n

-- `(x + a - 1) & !(a - 1)`, which rounds up to a multiple of a power of two `a`.
unfoldable pub align_up : ℕ → ℕ → ℕ
align_up x a = bit_and (x + a - 1) (word - 1 - (a - 1))
