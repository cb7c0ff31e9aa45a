-- ===== src/Backoff/Levels.antt =====
-- The heights that the generator gives.
use native.Mathlib.Nat.{
  pow-suc, one-le-pow, mod-lt, div-add-mod, add-mul-mod_self_left, mod-eq_of_lt,
}
use native.Mathlib.Decide.{dec_le}
use zerokv.Prelude.{
  ℕ, zero, suc, ◌+◌, ◌-◌, ◌*◌, ◌/◌, ◌%◌, ◌^◌, ◌≤◌, ◌<◌, ◌≡◌, ◌↔◌, sym, ap, ◌∙◌, true, false,
  bit_and, ◌==◌, arith, inl, inr, Bool-cases, ◌≢◌, ==_iff, ==_refl,
}
use zerokv.Words.Mask.{bit_and_mask}
use zerokv.Backoff.{output, climb, random_geometric_level}

quarter_mod : (a t : ℕ) → 0 < t → a % (4 * t) ≡ a % 4 + 4 * (a / 4 % t)
quarter_mod a t h = omega (
  arith,
  ap (λ n. n % (4 * t)) split,
  add-mul-mod_self_left (a % 4 + 4 * (a / 4 % t)) (4 * t) (a / 4 / t),
  mod-eq_of_lt {n = a % 4 + 4 * (a / 4 % t)} {m = 4 * t} (omega (arith, mod-lt (a / 4) h)),
)
  where
    split : a ≡ a % 4 + 4 * (a / 4 % t) + 4 * t * (a / 4 / t)
    split = omega (arith, div-add-mod (a / 4) t)

-- The low `l` pairs of bits are all ones.
abbrev pub Ones : ℕ → ℕ → Type 0
Ones l bits = bits % 4 ^ l ≡ 4 ^ l - 1

Ones-suc : (l bits : ℕ) → Ones (suc l) bits ↔ ((bit_and bits 3 ≡ 3) × Ones l (bits / 4))
Ones-suc l bits = (
  λ h. (
    omega (arith, facts, h, low, pos, quad, bound),
    omega (arith, facts, h, low, pos, quad, bound),
  ),
  λ h. omega (arith, facts, h.0, h.1, low, pos, quad, bound),
)
  where
    pos : 0 < 4 ^ l
    pos = one-le-pow l 4 (omega arith)

    quad : 4 ^ suc l ≡ 4 * 4 ^ l
    quad = omega (arith, pow-suc 4 l)

    low : bit_and bits 3 ≡ bits % 4
    low = bit_and_mask 2 bits

    bound : bits / 4 % 4 ^ l < 4 ^ l
    bound = mod-lt (bits / 4) pos

    facts : bits % 4 ^ suc l ≡ bits % 4 + 4 * (bits / 4 % 4 ^ l)
    facts = ap (λ m. bits % m) quad ∙ quarter_mod bits (4 ^ l) pos

climb-ge : (left level bits : ℕ) → level ≤ climb left level bits
unfolding climb
climb-ge zero level bits = omega arith
climb-ge (suc left) level bits = elim (Bool-cases (bit_and bits 3 == 3)) [
  | inl e ↦ rw e (omega (arith, climb-ge left (suc level) (bits / 4)))
  | inr e ↦ rw e (omega arith)
]

Ones-zero : (bits : ℕ) → Ones 0 bits
Ones-zero bits = omega arith

-- Climbing passes `l` more levels exactly where there are that many and their bits are all ones.
climb-Ones :
    (left level bits l : ℕ) → level + l ≤ climb left level bits ↔ ((l ≤ left) × Ones l bits)
unfolding climb
climb-Ones zero level bits zero = (λ h. (omega arith, Ones-zero bits), λ h. omega arith)
climb-Ones zero level bits (suc l) = (λ h. absurd (omega arith), λ h. absurd (omega (arith, h.0)))
climb-Ones (suc left) level bits zero =
    (λ h. (omega arith, Ones-zero bits), λ h. omega (arith, climb-ge (suc left) level bits))
climb-Ones (suc left) level bits (suc l) = elim (Bool-cases (bit_and bits 3 == 3)) [
  | inl e ↦
      let next = climb-Ones left (suc level) (bits / 4) l in
      let pair = Ones-suc l bits in
      let all = (==_iff (bit_and bits 3) 3).0 e in
      rw e (
        λ h. (omega (arith, (next.0 (omega arith)).0), pair.1 (all, (next.0 (omega arith)).1)),
        λ h. omega (arith, next.1 (omega (arith, h.0), (pair.0 h.1).1)),
      )
  | inr e ↦ rw e (
    λ h. absurd (omega arith),
    λ h.
        absurd
          (true-false (sym (==_refl 3) ∙ ap (λ n. n == 3) (sym ((Ones-suc l bits).0 h.1).0) ∙ e)),
  )
]
  where
    true-false : true ≢ false
    true-false b = cc

-- The height is at least 1 and at most `max_level`; it is more than `l` exactly where `max_level` is
-- and the lowest `2 * l` bits that the generator gives are all ones, as one output in `4 ^ l` has it.
pub random_geometric_level_lem :
    (state max_level l : ℕ)
    → 0 < max_level
    → (l < (random_geometric_level state max_level).0 ↔ ((l < max_level) × Ones l (output state)))
      × (1 ≤ (random_geometric_level state max_level).0)
      × ((random_geometric_level state max_level).0 ≤ max_level)
unfolding random_geometric_level
random_geometric_level_lem state max_level l pos =
    let steps = climb-Ones (max_level - 1) 1 (output state) l in
    (
      (
        λ h. (omega (arith, (steps.0 (omega arith)).0), (steps.0 (omega arith)).1),
        λ h. omega (arith, steps.1 (omega (arith, h.0), h.1)),
      ),
      climb-ge (max_level - 1) 1 (output state),
      elim (dec_le (climb (max_level - 1) 1 (output state)) max_level) [
        | yes le ↦ le
        | no gt ↦ absurd (
            omega
              (arith, ((climb-Ones (max_level - 1) 1 (output state) max_level).0 (omega arith)).0))
      ],
    )
