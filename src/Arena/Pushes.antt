-- ===== src/Arena/Pushes.antt =====
-- What one `push_bytes` stores, and what it leaves as it was.
use native.Mathlib.Nat.{le_refl}
use zerokv.Prelude.{
  ℕ, ◌+◌, ◌≤◌, ◌<◌, ◌^◌, ◌≡◌, ◌⊎◌, inl, inr, refl, ap, Option, none, some, List, [], ◌∷◌, length,
  arith,
}
use zerokv.Memory.{read_bytes, write_bytes, read_bytes-write_bytes, read_bytes-write_bytes_disjoint}
use zerokv.Words.Align.{align_up-IsAligned}
use zerokv.Arena.{Arena, alloc_raw, copy_into, push_bytes}
use zerokv.Arena.Bounds.{IsPlaced, IsChunk, nonempty-IsChunk, alloc_raw_empty}

-- A slice of the arena that has been handed out.
abbrev pub IsUsed : Arena → ℕ → ℕ → Type 0
IsUsed a p n = (n ≡ 0) ⊎ (p + n ≤ a.base + a.head)

-- What a call of `push_bytes` leaves as it was, and what it returns.
pub record Pushed (a : Arena) (bytes : List ℕ) (r : Option (ℕ × ℕ)) (a' : Arena) : Type 0 where
  pub placed : IsPlaced a'
  pub based : a'.base ≡ a.base
  pub capped : a'.cap ≡ a.cap
  pub grown : a.head ≤ a'.head
  pub kept : (p n : ℕ) → IsUsed a p n → read_bytes a'.mem p n ≡ read_bytes a.mem p n
  pub stored : (p n : ℕ) → r ≡ some (p, n) → IsUsed a' p n × (read_bytes a'.mem p n ≡ bytes)
  -- it fails exactly if the bytes do not fit, and otherwise uses them up
  pub outcome :
      ((r ≡ none) × (a.cap < a.head + length bytes) × (a'.head ≡ a.head))
      ⊎ ((p : ℕ) × (r ≡ some (p, length bytes)) × (a'.head ≡ a.head + length bytes))

push_bytes_full :
    (a : Arena) (bytes : List ℕ)
    → alloc_raw a (length bytes) 1 ≡ (none, a)
    → push_bytes a bytes ≡ (none, a)
unfolding push_bytes
push_bytes_full a bytes e = ap (copy_into bytes) e

push_bytes_room :
    (a a' : Arena) (bytes : List ℕ) (p : ℕ)
    → alloc_raw a (length bytes) 1 ≡ (some p, a')
    → push_bytes a bytes ≡ (some (p, length bytes), record a' { mem = write_bytes a'.mem p bytes })
unfolding push_bytes
push_bytes_room a a' bytes p e = ap (copy_into bytes) e

unchanged-Pushed :
    (a : Arena) (bytes : List ℕ)
    → IsPlaced a
    → a.cap < a.head + length bytes
    → Pushed a bytes none a
unchanged-Pushed a bytes place full = record {
  placed = place;
  based = refl;
  capped = refl;
  grown = le_refl a.head;
  kept = λ p n u. refl;
  stored = λ p n e. cc;
  outcome = inl (refl, full, refl);
}

empty-Pushed :
    (a : Arena)
    → IsPlaced a
    → Pushed a [] (some (a.base, 0)) (record a { mem = write_bytes a.mem a.base [] })
unfolding write_bytes read_bytes
empty-Pushed a place = record {
  placed = record { space = place.space; inside = place.inside };
  based = refl;
  capped = refl;
  grown = le_refl a.head;
  kept = λ p n u. refl;
  stored = λ p n e. (inl (ground (arith, e)), rw (zero_len p n e));
  outcome = inr (a.base, refl, omega arith);
}
  where
    zero_len : (p n : ℕ) → ◌≡◌ {A = Option (ℕ × ℕ)} (some (a.base, 0)) (some (p, n)) → n ≡ 0
    zero_len p n e = ground (arith, e)

chunk-Pushed :
    (a : Arena) (bytes : List ℕ) (p next : ℕ)
    → IsPlaced a
    → IsChunk a a.head (length bytes) 1 p next
    → Pushed a bytes
        (some (p, length bytes))
        (record a { head = next; mem = write_bytes a.mem p bytes })
unfolding read_bytes
chunk-Pushed a bytes p next place c = record {
  placed = record { space = place.space; inside = c.fits };
  based = refl;
  capped = refl;
  grown = omega (arith, c.above, c.ends);
  kept = untouched;
  stored = λ q n e. whole q n e;
  outcome = inr (p, refl, omega (arith, c.above, c.near, c.ends));
}
  where
    untouched :
        (q n : ℕ) → IsUsed a q n → read_bytes (write_bytes a.mem p bytes) q n ≡ read_bytes a.mem q n
    untouched q n (inl e) = rw e refl
    untouched q n (inr below) =
        read_bytes-write_bytes_disjoint a.mem p bytes n q (inl (omega (arith, c.above)))

    whole :
        (q n : ℕ)
        → ◌≡◌ {A = Option (ℕ × ℕ)} (some (p, length bytes)) (some (q, n))
        → IsUsed (record a { head = next; mem = write_bytes a.mem p bytes }) q n
          × (read_bytes (write_bytes a.mem p bytes) q n ≡ bytes)
    whole q n e =
        let at : p ≡ q = ground (arith, e) in
        let len : length bytes ≡ n = ground (arith, e) in
        (inr (omega (arith, c.ends)), rw (← at, ← len) (read_bytes-write_bytes a.mem p bytes))

-- A slice is stored whole in a part of the arena that no earlier slice uses, or nothing changes.
pub push_bytes-Pushed :
    (a : Arena) (bytes : List ℕ)
    → IsPlaced a
    → length bytes < 2 ^ 63
    → Pushed a bytes (push_bytes a bytes).0 (push_bytes a bytes).1
push_bytes-Pushed a [] place small =
    rw (push_bytes_room a a [] a.base (alloc_raw_empty a 1)) (empty-Pushed a place)
push_bytes-Pushed a (b ∷ bytes) place small =
    elim (nonempty-IsChunk a (length (b ∷ bytes)) 0 place (omega arith) (omega arith) small) [
      | inl full ↦ rw (push_bytes_full a (b ∷ bytes) full.0) (
          unchanged-Pushed a (b ∷ bytes) place (
            omega (
              arith,
              full.1,
              (align_up-IsAligned (a.base + a.head) 0 (omega arith)
                  (omega (arith, place.space, place.inside))).near,
            )))
      | inr chunk ↦
          rw (push_bytes_room a _ (b ∷ bytes) chunk.0 chunk.2)
            (chunk-Pushed a (b ∷ bytes) chunk.0 chunk.1 place chunk.3)
    ]
