-- ===== src/Arena.antt =====
-- crates/zerokv/src/arena.rs: the bump allocator, each call run alone.
pub mod Bounds
pub mod Race
pub mod Pushes
pub mod Kv
mod Tests
use zerokv.Prelude.{
  ℕ, ◌+◌, ◌-◌, Bool, ◌&&◌, not, Option, none, some, List, length, ◌==◌, ltb, leb, bit_and, ◌^◌,
  if◌then◌else◌,
}
use zerokv.Words.{word, align_up}
use zerokv.Memory.{Memory, write_bytes}

-- `Arena`; `mem` is the memory that its allocation lies in.
pub record Arena : Type 0 where
  pub base : ℕ
  pub cap : ℕ
  pub align : ℕ
  pub head : ℕ
  pub mem : Memory

unfoldable pub is_power_of_two : ℕ → Bool
is_power_of_two n = not (n == 0) && bit_and n (n - 1) == 0

-- `Layout::from_size_align` accepts a size that stays within `isize` when rounded up.
unfoldable pub is_layout : ℕ → ℕ → Bool
is_layout size align = is_power_of_two align && leb (size + (align - 1)) (2 ^ 63 - 1)

-- `none` is a failed assertion or an invalid layout. `base` and `mem` come from the allocator.
unfoldable pub with_capacity : ℕ → Memory → ℕ → ℕ → Option Arena
unfolding is_layout is_power_of_two
with_capacity base mem cap align =
    if is_power_of_two align && ltb 0 cap && is_layout cap align
    then some (record { base = base; cap = cap; align = align; head = 0; mem = mem })
    else none

pub checked_add : ℕ → ℕ → Option ℕ
checked_add a b = if ltb (a + b) word then some (a + b) else none

-- One round of the loop of `alloc_raw` on the cursor that it has read: the address of the chunk and
-- the new cursor, or `none` if the arena is exhausted.
pub reserve : Arena → ℕ → ℕ → ℕ → Option (ℕ × ℕ)
unfolding checked_add
reserve a cur size align =
    let start = a.base + cur in
    let aligned = align_up start align in
    elim (checked_add cur (aligned - start)) [
      | none ↦ none
      | some padded ↦ elim (checked_add padded size) [
        | none ↦ none
        | some new_head ↦ if ltb a.cap new_head then none else some (aligned, new_head)
      ]
    ]

-- Run alone, the compare-exchange succeeds.
pub alloc_raw : Arena → ℕ → ℕ → Option ℕ × Arena
unfolding reserve
alloc_raw a size align =
    if size == 0 then (some a.base, a) else elim (reserve a a.head size align) [
      | none ↦ (none, a)
      | some (aligned, new_head) ↦ (some aligned, record a { head = new_head })
    ]

-- What is done with the region, if there is one: the address and length of the slice.
pub copy_into : List ℕ → Option ℕ × Arena → Option (ℕ × ℕ) × Arena
copy_into bytes (none, a) = (none, a)
copy_into bytes (some dst, a) =
    (some (dst, length bytes), record a { mem = write_bytes a.mem dst bytes })

pub push_bytes : Arena → List ℕ → Option (ℕ × ℕ) × Arena
unfolding copy_into
push_bytes a bytes = copy_into bytes (alloc_raw a (length bytes) 1)

pub used : Arena → ℕ
used a = a.head

pub capacity : Arena → ℕ
capacity a = a.cap

pub reset : Arena → Arena
reset a = record a { head = 0 }
