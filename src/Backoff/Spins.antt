-- ===== src/Backoff/Spins.antt =====
-- How long the backoff spins, and when it gives up.
use native.Mathlib.Nat.{pow-suc, one-le-pow, mod-lt, pow-le-pow_right}
use zerokv.Prelude.{
  ℕ, zero, suc, ◌+◌, ◌-◌, ◌/◌, ◌^◌, ◌≤◌, ◌<◌, ◌≡◌, ap, ◌∙◌, min, max, bit_and, leb, arith, List, [],
  ◌∷◌, length,
}
use zerokv.Words.Mask.{bit_and_mask}
use zerokv.Backoff.{Backoff, output, iterations, spin, snooze, is_completed}

-- The calls that a backoff sees, each a `spin` or a `snooze`.
pub data Call : Type 0 where
  spins : Call
  snoozes : Call

unfoldable pub after : Backoff → Call → Backoff
after b spins = (spin b).1
after b snoozes = snooze b

unfoldable pub after_calls : Backoff → List Call → Backoff
unfolding after
after_calls b [] = b
after_calls b (c ∷ cs) = after_calls (after b c) cs

after-step : (b : Backoff) (c : Call) → b.step ≤ 11 → (after b c).step ≡ min (suc b.step) 11
unfolding after spin snooze
after-step b spins h = ground arith
after-step b snoozes h = ground arith

calls-step :
    (cs : List Call) (b : Backoff)
    → b.step ≤ 11
    → (after_calls b cs).step ≡ min (b.step + length cs) 11
unfolding after_calls
calls-step [] b h = omega arith
calls-step (c ∷ cs) b h =
    omega (arith, calls-step cs (after b c) (omega (arith, after-step b c h)), after-step b c h)

mask-lt : (m r : ℕ) → bit_and r (max (2 ^ m) 2 / 2 - 1) < max (2 ^ m / 2) 1
mask-lt zero r = omega (arith, bit_and_mask 0 r)
mask-lt (suc k) r = omega (
  arith,
  pow-suc 2 k,
  one-le-pow k 2 (omega arith),
  bit_and_mask k r,
  mod-lt r (one-le-pow k 2 (omega arith)),
  ap (λ n. bit_and r (n - 1)) half,
)
  where
    half : max (2 ^ suc k) 2 / 2 ≡ 2 ^ k
    half = omega (arith, pow-suc 2 k, one-le-pow k 2 (omega arith))

-- Whatever the calls before, a spin pauses at least `2 ^ min n 6` times and less than half as often
-- again, at most 95 times, where `n` is their number; it says that it still is in the cheap
-- regime exactly up to the seventh call, and the backoff is completed from the eleventh call on.
pub spin_lem :
    (b : Backoff) (cs : List Call)
    → b.step ≡ 0
    → (2 ^ min (length cs) 6 ≤ iterations (after_calls b cs))
      × (iterations (after_calls b cs) < 2 ^ min (length cs) 6 + max (2 ^ min (length cs) 6 / 2) 1)
      × (iterations (after_calls b cs) ≤ 95)
      × ((spin (after_calls b cs)).0 ≡ leb (length cs) 6)
      × (is_completed (after_calls b cs) ≡ leb 11 (length cs))
unfolding iterations spin is_completed
spin_lem b cs zero_step =
    let at : (after_calls b cs).step ≡ min (length cs) 11 =
      calls-step cs b (omega arith) ∙ omega (arith, zero_step) in
    let exp : min (after_calls b cs).step 6 ≡ min (length cs) 6 = omega (arith, at) in
    let jitter = mask-lt (min (length cs) 6) (output (after_calls b cs).state) in
    (
      rw exp (omega arith),
      rw exp (omega (arith, jitter)),
      rw exp (
          omega (
            arith,
            jitter,
            pow-le-pow_right {n = 2} (omega arith) {i = min (length cs) 6} {j = 6} (omega arith),
          )),
      ground (arith, at),
      ground (arith, at),
    )
