-- ===== src/Spsc.antt =====
-- crates/zerokv/src/spsc.rs: the single-producer single-consumer ring, each call run alone.
pub mod Steps
pub mod Window
pub mod Queue
pub mod Drop
mod Tests
use zerokv.Prelude.{
  ℕ, zero, suc, ◌-◌, max, bit_and, Bool, Option, none, some, List, length, get_elem?, set,
  replicate, ◌==◌, if◌then◌else◌, [], ◌∷◌, ◌++◌,
}
use zerokv.Words.{wrapping_add, wrapping_sub, next_power_of_two}

-- `Result<(), T>`
pub data Pushed {ℓ} (T : Type ℓ) : Type ℓ where
  ok : Pushed T
  err : T → Pushed T

-- `Ring<T>`. A slot is `MaybeUninit<T>`: `none` until it is first written.
pub record Ring {ℓ} (T : Type ℓ) : Type ℓ where
  pub buf : List (Option T)
  pub mask : ℕ
  pub tail : ℕ
  pub head : ℕ

module _ {ℓ} {T : Type ℓ} where
  pub channel : ℕ → Ring T
  channel capacity =
      let cap = next_power_of_two (max capacity 2) in
      record { buf = replicate cap none; mask = cap - 1; tail = 0; head = 0 }

  -- The test of `push` on the two cursors that it has loaded.
  unfoldable pub is_full : Ring T → ℕ → ℕ → Bool
  is_full r tail head = wrapping_sub tail head == length r.buf

  pub write_slot : Ring T → ℕ → T → Ring T
  write_slot r tail value = record r { buf = set r.buf (bit_and tail r.mask) (some value) }

  pub publish : Ring T → ℕ → Ring T
  publish r tail = record r { tail = wrapping_add tail 1 }

  -- `assume_init_read`: what the slot holds; `none` is a read of uninitialised memory.
  pub read_slot : Ring T → ℕ → Option T
  read_slot r head = elim (get_elem? r.buf (bit_and head r.mask)) [ none ↦ none | some slot ↦ slot ]

  pub release : Ring T → ℕ → Ring T
  release r head = record r { head = wrapping_add head 1 }

  pub push : Ring T → T → Pushed T × Ring T
  unfolding is_full write_slot publish
  push r value =
      let tail = r.tail in
      let head = r.head in
      if is_full r tail head then (err value, r) else (ok, publish (write_slot r tail value) tail)

  -- The outer option is that of the code, the inner one the state of the slot.
  pub pop : Ring T → Option (Option T) × Ring T
  unfolding read_slot release
  pop r =
      let head = r.head in
      let tail = r.tail in
      if head == tail then (none, r) else (some (read_slot r head), release r head)

  -- The items that `f` is called on, in order, and the ring that is left.
  pub drain : Ring T → ℕ → List (Option T) × Ring T
  drain r zero = ([], r)
  drain r (suc most) =
      let (popped, r') = pop r in
      elim popped [ none ↦ ([], r) | some v ↦ let (rest, r'') = drain r' most in (v ∷ rest, r'') ]

  -- `Drop for Ring`: the slots that are dropped in place, in order. The first argument bounds the
  -- rounds; the indices left over are returned when it runs out.
  pub drop_slots : ℕ → Ring T → ℕ → ℕ → List (Option T) × ℕ
  unfolding read_slot
  drop_slots zero r i tail = ([], i)
  drop_slots (suc fuel) r i tail =
      let rest = drop_slots fuel r (wrapping_add i 1) tail in
      if i == tail then ([], i) else (read_slot r i ∷ rest.0, rest.1)
