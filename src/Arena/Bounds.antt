-- ===== src/Arena/Bounds.antt =====
-- Where the chunks of `alloc_raw` lie.
use native.Mathlib.Nat.{pow-le-pow_right}
use zerokv.Prelude.{
  ℕ, zero, suc, ◌+◌, ◌%◌, ◌^◌, ◌≤◌, ◌<◌, ◌≡◌, refl, none, some, arith, ◌↔◌, Option-cases, inl, inr,
  ==_ne, ◌⊎◌,
}
use zerokv.Words.{align_up}
use zerokv.Words.Align.{IsAligned, align_up-IsAligned}
use zerokv.Arena.{Arena, checked_add, reserve, alloc_raw}

-- The arena lies in the address space, as the allocator guarantees, and its cursor inside it.
pub record IsPlaced (a : Arena) : Type 0 where
  pub space : a.base + a.cap < 2 ^ 63
  pub inside : a.head ≤ a.cap

-- A chunk that starts at `p` after the cursor `cur` and moves the cursor to `next`.
pub record IsChunk (a : Arena) (cur size align p next : ℕ) : Type 0 where
  pub above : a.base + cur ≤ p
  pub near : p < a.base + cur + align
  pub aligned : p % align ≡ 0
  pub ends : p + size ≡ a.base + next
  pub fits : next ≤ a.cap

module _ (a : Arena) (cur size k : ℕ) (place : IsPlaced a) (low : cur ≤ a.cap) (small : k < 63)
    (sized : size < 2 ^ 63) where
  chunk : IsAligned (a.base + cur) (2 ^ k) (align_up (a.base + cur) (2 ^ k))
  chunk = align_up-IsAligned (a.base + cur) k (omega arith) (
      omega
        (arith, place.space, pow-le-pow_right {n = 2} (omega arith) {i = k} {j = 62} (omega arith)))

  -- A round reserves the first aligned chunk after the cursor, and fails exactly if that chunk
  -- passes the end of the arena.
  pub reserve-IsChunk :
      (p next : ℕ) → reserve a cur size (2 ^ k) ≡ some (p, next) → IsChunk a cur size (2 ^ k) p next
  unfolding reserve checked_add
  reserve-IsChunk p next e = ground (arith, chunk.above, chunk.near, chunk.aligned, e)

  pub reserve-eq-none :
      (reserve a cur size (2 ^ k) ≡ none)
      ↔ (a.base + a.cap < align_up (a.base + cur) (2 ^ k) + size)
  unfolding reserve checked_add
  reserve-eq-none = (λ e. ground (arith, chunk.above, e), λ e. ground (arith, chunk.above, e))

-- A call for at least one byte.
pub nonempty-IsChunk :
    (a : Arena) (size k : ℕ)
    → IsPlaced a
    → k < 63
    → 0 < size
    → size < 2 ^ 63
    → ((alloc_raw a size (2 ^ k) ≡ (none, a))
        × (a.base + a.cap < align_up (a.base + a.head) (2 ^ k) + size))
      ⊎ ((p : ℕ) × (next : ℕ) × (alloc_raw a size (2 ^ k) ≡ (some p, record a { head = next }))
          × IsChunk a a.head size (2 ^ k) p next)
unfolding alloc_raw
nonempty-IsChunk a size k place small pos sized =
    elim (Option-cases (reserve a a.head size (2 ^ k))) [
      | inl none_left ↦ inl (
        rw (==_ne size 0 (omega arith), none_left),
        (reserve-eq-none a a.head size k place place.inside small sized).0 none_left,
      )
      | inr found ↦ inr (
        found.0.0,
        found.0.1,
        rw (==_ne size 0 (omega arith), found.1),
        reserve-IsChunk a a.head size k place place.inside small sized found.0.0 found.0.1 found.1,
      )
    ]

pub alloc_raw_empty : (a : Arena) (align : ℕ) → alloc_raw a 0 align ≡ (some a.base, a)
unfolding alloc_raw
alloc_raw_empty a align = refl

-- A call of `alloc_raw` for `size` bytes, below 2^63, at an alignment of 2^k, k below 63, on an arena
-- that lies in the address space. For no bytes it hands out the base, whatever the alignment, and
-- changes nothing. Otherwise it fails, and changes nothing, and then the chunk at the next multiple
-- of the alignment would pass the end of the arena; or it hands out that chunk, which lies in the
-- arena and ends where the new cursor stands, and changes only the cursor.
pub alloc_raw-IsChunk :
    (a : Arena) (size k : ℕ)
    → IsPlaced a
    → k < 63
    → size < 2 ^ 63
    → ((size ≡ 0) × (alloc_raw a size (2 ^ k) ≡ (some a.base, a)))
      ⊎ ((0 < size)
          × (alloc_raw a size (2 ^ k) ≡ (none, a))
          × (a.base + a.cap < align_up (a.base + a.head) (2 ^ k) + size))
      ⊎ ((0 < size)
          × (p : ℕ) × (next : ℕ) × (alloc_raw a size (2 ^ k) ≡ (some p, record a { head = next }))
          × IsChunk a a.head size (2 ^ k) p next)
alloc_raw-IsChunk a zero k place small sized = inl (refl, alloc_raw_empty a (2 ^ k))
alloc_raw-IsChunk a (suc n) k place small sized =
    elim (nonempty-IsChunk a (suc n) k place small (omega arith) sized) [
      | inl refused ↦ inr (inl (omega arith, refused.0, refused.1))
      | inr made ↦ inr (inr (omega arith, made.0, made.1, made.2, made.3))
    ]
