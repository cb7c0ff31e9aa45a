-- ===== src/Words/Align.antt =====
-- Rounding up to a multiple of a power of two, as the allocations of the engine do it.
use native.Mathlib.Nat.{
  zero-mod, mul-mod_right, pow-suc, one-le-pow, mod-eq_of_lt, mod-lt, div-add-mod, le_refl, suc-add,
}
use Prim.Native.Nat.{min, digits, bit_and-bitwise}
use zerokv.Prelude.{
  ◌∙◌, ℕ, zero, suc, ◌+◌, ◌-◌, ◌*◌, ◌/◌, ◌%◌, ◌^◌, ◌≤◌, ◌<◌, bit_and, ◌≡◌, ap, arith,
}
use zerokv.Words.{word, align_up}
use zerokv.Words.Mask.{mask_digits, double_mod, le_zero}

-- The digits that the complement of a mask lets through, in words of `k + d` bits.
high_digits :
    (n k d a : ℕ)
    → a ≤ n
    → a < 2 ^ (k + d)
    → digits (λ _. zero) min n a (2 ^ (k + d) - 2 ^ k) + a % 2 ^ k ≡ a
high_digits n zero d a h small = omega (
  arith,
  mask_digits n d a h,
  mod-eq_of_lt {n = a} {m = 2 ^ d} (omega (arith, ap (λ e. 2 ^ e) zero_d)),
  ap (λ e. digits (λ _. zero) min n a (2 ^ e - 1)) zero_d,
)
  where
    zero_d : zero + d ≡ d
    zero_d = omega arith
high_digits zero (suc k) d a h small =
    omega (arith, zero-mod (2 ^ suc k), ap (λ m. m % 2 ^ suc k) (le_zero a h))
high_digits (suc n) (suc k) d zero h small = omega (arith, zero-mod (2 ^ suc k))
high_digits (suc n) (suc k) d (suc a) h small =
    rw (suc-add, halves)
      (omega (
        arith,
        even,
        high_digits n k d (suc a / 2) (omega arith) (omega (arith, double)),
        double_mod (suc a) (2 ^ k) (one-le-pow k 2 (omega arith)),
        ap (λ m. suc a % m) (pow-suc 2 k),
      ))
  where
    double : 2 ^ (suc k + d) ≡ 2 ^ (k + d) * 2
    double = ap (λ e. 2 ^ e) (suc-add k d) ∙ pow-suc 2 (k + d)

    halves : (2 ^ suc (k + d) - 2 ^ suc k) / 2 ≡ 2 ^ (k + d) - 2 ^ k
    halves = omega (arith, pow-suc 2 (k + d), pow-suc 2 k)

    even : (2 ^ suc (k + d) - 2 ^ suc k) % 2 ≡ 0
    even = omega (arith, pow-suc 2 (k + d), pow-suc 2 k)

-- What rounding `x` up to a multiple of `a` returns.
pub record IsAligned (x a r : ℕ) : Type 0 where
  pub above : x ≤ r
  pub near : r < x + a
  pub aligned : r % a ≡ 0

-- The next multiple of a power of two, where the sum does not leave the word.
pub align_up-IsAligned :
    (x k : ℕ) → k < 64 → x + 2 ^ k ≤ word → IsAligned x (2 ^ k) (align_up x (2 ^ k))
unfolding align_up
align_up-IsAligned x k lt fits = record {
  above = omega (arith, cut, low);
  near = omega (arith, cut, low, pos);
  aligned =
      ap (λ r. r % 2 ^ k) (omega (arith, cut, div-add-mod (x + 2 ^ k - 1) (2 ^ k)))
      ∙ mul-mod_right (2 ^ k) ((x + 2 ^ k - 1) / 2 ^ k);
}
  where
    pos : 0 < 2 ^ k
    pos = one-le-pow k 2 (omega arith)

    low : (x + 2 ^ k - 1) % 2 ^ k < 2 ^ k
    low = mod-lt (x + 2 ^ k - 1) pos

    total : k + (64 - k) ≡ 64
    total = omega arith

    mask : word - 1 - (2 ^ k - 1) ≡ 2 ^ (k + (64 - k)) - 2 ^ k
    mask = omega (arith, pos, ap (λ e. 2 ^ e) total)

    cut : bit_and (x + 2 ^ k - 1) (word - 1 - (2 ^ k - 1)) + (x + 2 ^ k - 1) % 2 ^ k ≡ x + 2 ^ k - 1
    cut = rw mask (
        ap (λ m. m + (x + 2 ^ k - 1) % 2 ^ k) (bit_and-bitwise (x + 2 ^ k - 1) _)
        ∙ high_digits (x + 2 ^ k - 1) k (64 - k) (x + 2 ^ k - 1) (le_refl _)
            (omega (arith, fits, pos, ap (λ e. 2 ^ e) total)))
