-- ===== src/Skiplist/Heap/Pointers.antt =====
-- The word of a link: a reference and a mark put together, and taken apart again.
use native.Mathlib.Nat.{mod-eq_of_lt, le_refl}
use Prim.Native.Nat.{digits, bit_or-bitwise, bit_and-bitwise}
use zerokv.Prelude.{
  ℕ, zero, suc, ◌-◌, ◌*◌, ◌/◌, ◌%◌, ◌^◌, ◌≤◌, ◌<◌, ◌≡◌, refl, ◌∙◌, Bool, true, false, max, arith,
  bit_and, bit_or, ◌==◌,
}
use zerokv.Words.{word}
use zerokv.Words.Mask.{bit_and_mask, mask_digits}
use zerokv.Skiplist.Heap.{pack, ptr_of, mark_of}

-- Nothing is added to the digits of a number.
digits_zero : (n a : ℕ) → a ≤ n → digits (λ b. b) max n a 0 ≡ a
digits_zero zero a h = omega arith
digits_zero (suc n) zero h = refl
digits_zero (suc n) (suc a) h = omega (arith, digits_zero n (suc a / 2) (omega arith))

or_zero : (a : ℕ) → bit_or a 0 ≡ a
or_zero a = bit_or-bitwise a 0 ∙ digits_zero a a (le_refl a)

or_one : (a : ℕ) → a % 2 ≡ 0 → bit_or a 1 ≡ suc a
or_one zero h = bit_or-bitwise 0 1
or_one (suc a) h =
    bit_or-bitwise (suc a) 1 ∙ omega (arith, h, digits_zero a (suc a / 2) (omega arith))

-- The lowest bit is cleared.
and_even : (a : ℕ) → a < word → bit_and a (word - 2) ≡ a / 2 * 2
and_even zero h = bit_and-bitwise 0 (word - 2)
and_even (suc a) h =
    bit_and-bitwise (suc a) (word - 2)
    ∙ omega (
      arith,
      mask_digits a 63 (suc a / 2) (omega arith),
      mod-eq_of_lt {n = suc a / 2} {m = 2 ^ 63} (omega (arith, h)),
    )

-- The address of a node is even, since nodes are aligned. A word made of such an address and a mark
-- gives both back.
pub pack-parts :
    (p : ℕ) (m : Bool) → p % 2 ≡ 0 → p < word → (ptr_of (pack p m) ≡ p) × (mark_of (pack p m) ≡ m)
unfolding pack ptr_of mark_of
pack-parts p true even low =
    rw (or_one p even) (omega (arith, and_even (suc p) (omega (arith, even, low)), even), marked)
  where
    marked : (bit_and (suc p) 1 == 1) ≡ true
    marked = rw (bit_and_mask 1 (suc p)) (rw odd refl)
      where
        odd : suc p % 2 ^ 1 ≡ 1
        odd = omega (arith, even)
pack-parts p false even low =
    rw (or_zero p) (omega (arith, and_even p low, even), rw (bit_and_mask 1 p) (rw clear refl))
  where
    clear : p % 2 ^ 1 ≡ 0
    clear = omega (arith, even)
