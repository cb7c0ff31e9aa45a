-- ===== src/Backoff.antt =====
-- crates/zerokv/src/backoff.rs: exponential backoff, and the heights of skip list nodes.
pub mod Spins
pub mod Levels
mod Tests
use zerokv.Prelude.{
  ℕ, zero, suc, ◌+◌, ◌-◌, ◌*◌, ◌/◌, ◌%◌, ◌^◌, min, max, Bool, bit_and, bit_or, bit_xor, leb, ltb,
  ◌==◌, if◌then◌else◌, ◌&&◌,
}
use zerokv.Words.{word, wrapping_mul}

-- The word that `Xorshift64::next` stores for the next call.
unfoldable pub scramble : ℕ → ℕ
scramble x =
    let a = bit_xor x (x / 2 ^ 12) in
    let b = bit_xor a (a * 2 ^ 25 % word) in bit_xor b (b / 2 ^ 27)

-- The number that it returns.
unfoldable pub output : ℕ → ℕ
unfolding scramble
output x = wrapping_mul (scramble x) 0x2545f4914f6cdd1d

abbrev pub spin_limit : ℕ
spin_limit = 6

abbrev pub yield_limit : ℕ
yield_limit = 10

-- `Backoff`; `state` is that of its generator.
pub record Backoff : Type 0 where
  pub step : ℕ
  pub state : ℕ

-- `address` is that of a local variable.
unfoldable pub new : ℕ → Backoff
new address = record { step = 0; state = bit_or (wrapping_mul address 0x9e3779b97f4a7c15) 1 }

abbrev pub advance : Backoff → Backoff
advance b = if leb b.step yield_limit then record b { step = suc b.step } else b

-- How often `spin` pauses.
unfoldable pub iterations : Backoff → ℕ
unfolding output
iterations b =
    let base = 2 ^ min b.step spin_limit in base + bit_and (output b.state) (max base 2 / 2 - 1)

unfoldable pub spin : Backoff → Bool × Backoff
unfolding scramble
spin b = (leb b.step spin_limit, advance (record b { state = scramble b.state }))

-- Yields to the scheduler where it does not spin.
unfoldable pub snooze : Backoff → Backoff
unfolding spin
snooze b = if leb b.step spin_limit then (spin b).1 else advance b

unfoldable pub is_completed : Backoff → Bool
is_completed b = ltb yield_limit b.step

-- The loop of `random_geometric_level`, for the levels that are left below `max_level`.
unfoldable pub climb : ℕ → ℕ → ℕ → ℕ
climb zero level bits = level
climb (suc left) level bits =
    let rest = climb left (suc level) (bits / 4) in if bit_and bits 3 == 3 then rest else level

-- The level, and the state of the generator after it.
unfoldable pub random_geometric_level : ℕ → ℕ → ℕ × ℕ
unfolding climb output scramble
random_geometric_level state max_level = (climb (max_level - 1) 1 (output state), scramble state)
