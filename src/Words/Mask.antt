-- ===== src/Words/Mask.antt =====
-- A mask of low bits is a remainder, and rounding up to a power of two gives such masks.
use native.Mathlib.Nat.{
  pow-suc, one-le-pow, pow-le-pow_right, add-mul-mod_self_left, mod-eq_of_lt, mod-lt, div-add-mod,
  le_refl, zero-mod, add-zero, add-suc, dvd_refl, dvd-mul_right_of_dvd, mod-mod_of_dvd,
}
use native.Mathlib.Decide.{dec_lt}
use Prim.Native.Nat.{◌∣◌, min, digits, bit_and-bitwise}
use mathlib.Core.Path.{subst}
use zerokv.Prelude.{
  ◌∙◌, ℕ, zero, suc, ◌+◌, ◌-◌, ◌*◌, ◌/◌, ◌%◌, ◌^◌, ◌≤◌, ◌<◌, bit_and, ◌≡◌, refl, ap, arith, leb,
  Bool-cases, inl, inr,
}
use zerokv.Words.{word, double_up, next_power_of_two}

pub le_zero : (a : ℕ) → a ≤ 0 → a ≡ 0
le_zero a h = omega arith

pub double_mod : (a t : ℕ) → 0 < t → a % (t * 2) ≡ a / 2 % t * 2 + a % 2
double_mod a t h = omega (
  arith,
  ap (λ n. n % (t * 2)) split,
  add-mul-mod_self_left (a / 2 % t * 2 + a % 2) (t * 2) (a / 2 / t),
  mod-eq_of_lt {n = a / 2 % t * 2 + a % 2} {m = t * 2} (omega (arith, mod-lt (a / 2) h)),
)
  where
    split : a ≡ a / 2 % t * 2 + a % 2 + t * 2 * (a / 2 / t)
    split = omega (arith, div-add-mod (a / 2) t)

-- The digits that a mask of `k` ones lets through; `n` counts the rounds that are left.
pub mask_digits : (n k a : ℕ) → a ≤ n → digits (λ _. zero) min n a (2 ^ k - 1) ≡ a % 2 ^ k
mask_digits zero k a h = omega (arith, zero-mod (2 ^ k), ap (λ m. m % 2 ^ k) (le_zero a h))
mask_digits (suc n) k zero h = omega (arith, zero-mod (2 ^ k))
mask_digits (suc n) zero (suc a) h = omega (arith, mask_digits n zero (suc a / 2) (omega arith))
mask_digits (suc n) (suc k) (suc a) h = rw halves (
    omega (
      arith,
      odd,
      mask_digits n k (suc a / 2) (omega arith),
      double_mod (suc a) (2 ^ k) (one-le-pow k 2 (omega arith)),
      ap (λ m. suc a % m) (pow-suc 2 k),
    ))
  where
    halves : (2 ^ suc k - 1) / 2 ≡ 2 ^ k - 1
    halves = omega (arith, pow-suc 2 k, one-le-pow k 2 (omega arith))

    odd : (2 ^ suc k - 1) % 2 ≡ 1
    odd = omega (arith, pow-suc 2 k, one-le-pow k 2 (omega arith))

-- `x & (2 ^ k - 1)` is `x % 2 ^ k`.
pub bit_and_mask : (k a : ℕ) → bit_and a (2 ^ k - 1) ≡ a % 2 ^ k
bit_and_mask k a = bit_and-bitwise a (2 ^ k - 1) ∙ mask_digits a k a (le_refl a)

-- What rounding up returns: a power of two that holds `n`, and less than twice `n`.
pub record IsRounded (n p : ℕ) : Type 0 where
  pub log : ℕ
  pub power : p ≡ 2 ^ log
  pub holds : n ≤ p
  pub tight : p < 2 * n

lt-two-pow : (n : ℕ) → n < 2 ^ n
lt-two-pow zero = omega arith
lt-two-pow (suc n) = omega (arith, pow-suc 2 n, lt-two-pow n)

double_up-IsRounded :
    (f k n : ℕ) → 0 < n → 2 ^ k < 2 * n → n ≤ 2 ^ (k + f) → IsRounded n (double_up f (2 ^ k) n)
unfolding double_up
double_up-IsRounded zero k n pos low high = record {
  log = k;
  power = refl;
  holds = rw add-zero at high;
  tight = omega arith;
}
double_up-IsRounded (suc f) k n pos low high = elim (Bool-cases (leb n (2 ^ k))) [
  | inl e ↦ rw e (record { log = k; power = refl; holds = ground arith; tight = omega arith })
  | inr e ↦
      rw (e, two-pow-suc)
        (double_up-IsRounded f (suc k) n pos (ground (arith, pow-suc 2 k)) (rw shift at high))
]
  where
    two-pow-suc : 2 * 2 ^ k ≡ 2 ^ suc k
    two-pow-suc = omega (arith, pow-suc 2 k)

    shift : k + suc f ≡ suc k + f
    shift = omega arith

-- `next_power_of_two` returns the least power of two that is at least `n`.
pub next_power_of_two-IsRounded : (n : ℕ) → 0 < n → IsRounded n (next_power_of_two n)
unfolding next_power_of_two
next_power_of_two-IsRounded n h =
    double_up-IsRounded n 0 n h (omega arith) (omega (arith, lt-two-pow n, ap (λ k. 2 ^ k) zero_n))
  where
    zero_n : 0 + n ≡ n
    zero_n = omega arith

-- Below the largest power of a word the result is a word, so `next_power_of_two` does not panic.
pub log-lt-64 : {n p : ℕ} (r : IsRounded n p) → n ≤ 2 ^ 63 → r.log < 64
log-lt-64 r h = elim (dec_lt r.log 64) [
  | yes p ↦ p
  | no p ↦ absurd (
      omega (
        arith,
        r.tight,
        r.power,
        pow-le-pow_right {n = 2} (omega arith) {i = 64} {j = r.log} (omega arith),
      ))
]

two-pow-dvd : (k d : ℕ) → 2 ^ k ∣ 2 ^ (k + d)
two-pow-dvd k zero = rw add-zero (dvd_refl (2 ^ k))
two-pow-dvd k (suc d) = rw (add-suc, pow-suc) (dvd-mul_right_of_dvd (2 ^ k) (two-pow-dvd k d) 2)

-- Masking a wrapped counter masks the counter.
pub bit_and_wrapped : (k n : ℕ) → k ≤ 64 → bit_and (n % word) (2 ^ k - 1) ≡ n % 2 ^ k
bit_and_wrapped k n h = bit_and_mask k (n % word) ∙ mod-mod_of_dvd (2 ^ k) n divides
  where
    divides : 2 ^ k ∣ word
    divides = subst (λ m. 2 ^ k ∣ 2 ^ m) total (two-pow-dvd k (64 - k))
      where
        total : k + (64 - k) ≡ 64
        total = omega arith
