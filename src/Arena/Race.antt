-- ===== src/Arena/Race.antt =====
-- arena.rs with any number of threads in `alloc_raw` at once: each step is one load or one
-- compare-exchange of the cursor, which may fail without a reason.
use zerokv.Prelude.{
  ℕ, zero, suc, ◌+◌, ◌^◌, ◌≤◌, ◌<◌, ◌≡◌, refl, none, some, List, [], ◌∷◌, get_elem?, arith, ◌==◌,
  if◌then◌else◌,
}
use zerokv.Arena.{Arena, reserve}
use zerokv.Arena.Bounds.{IsPlaced, IsChunk, reserve-IsChunk}

abbrev pub update : {A : Type 0} → (ℕ → A) → ℕ → A → ℕ → A
update f i v j = if i == j then v else f j

-- Where a thread stands; the alignment is `2 ^ log`.
pub data Pc : Type 0 where
  idle : Pc
  trying : (size log cur : ℕ) → Pc  -- `cur` is loaded

-- The arena, the threads and, as a record of the past, the chunks handed out, the newest first.
pub record World : Type 0 where
  pub arena : Arena
  pub thread : ℕ → Pc
  pub granted : List (ℕ × ℕ)

-- A call for no bytes hands out the base at once: `empty`.
pub data Step (s : World) : World → Type 0 where
  empty : (i : ℕ) → s.thread i ≡ idle → Step s s
  load :
      (i size log : ℕ)
      → s.thread i ≡ idle
      → 0 < size
      → size < 2 ^ 63
      → log < 63
      → Step s (record s { thread = update s.thread i (trying size log s.arena.head) })
  win :
      (i size log cur p next : ℕ)
      → s.thread i ≡ trying size log cur
      → reserve s.arena cur size (2 ^ log) ≡ some (p, next)
      → s.arena.head ≡ cur
      → Step s (record {
        arena = record s.arena { head = next };
        thread = update s.thread i idle;
        granted = (p, size) ∷ s.granted;
      })
  lose :
      (i size log cur p next : ℕ)
      → s.thread i ≡ trying size log cur
      → reserve s.arena cur size (2 ^ log) ≡ some (p, next)
      → Step s (record s { thread = update s.thread i (trying size log s.arena.head) })
  exhaust :
      (i size log cur : ℕ)
      → s.thread i ≡ trying size log cur
      → reserve s.arena cur size (2 ^ log) ≡ none
      → Step s (record s { thread = update s.thread i idle })

abbrev pub init : Arena → World
init a = record { arena = a; thread = λ _. idle; granted = [] }

pub data Reach (a : Arena) : World → Type 0 where
  start : Reach a (init a)
  later : {s t : World} → Reach a s → Step s t → Reach a t

-- Chunks one above the other, the newest on top, between `low` and `limit`.
abbrev Stacked : ℕ → ℕ → List (ℕ × ℕ) → Type 0
Stacked low limit [] = low ≤ limit
Stacked low limit ((p, n) ∷ rest) = (p + n ≤ limit) × Stacked low p rest

Stacked-raise :
    (low limit higher : ℕ) (chunks : List (ℕ × ℕ))
    → limit ≤ higher
    → Stacked low limit chunks
    → Stacked low higher chunks
Stacked-raise low limit higher [] le h = omega arith
Stacked-raise low limit higher ((p, n) ∷ rest) le h = (omega arith, h.1)

Stacked-member :
    (low limit : ℕ) (chunks : List (ℕ × ℕ)) (i p n : ℕ)
    → Stacked low limit chunks
    → get_elem? chunks i ≡ some (p, n)
    → (low ≤ p) × (p + n ≤ limit)
Stacked-member low limit [] i p n h e = cc
Stacked-member low limit ((q, m) ∷ []) zero p n h e = ground (arith, e)
Stacked-member low limit ((q, m) ∷ (r, l) ∷ rest) zero p n h e =
    let below = Stacked-member low q ((r, l) ∷ rest) 0 r l h.1 refl in ground (arith, e, below)
Stacked-member low limit ((q, m) ∷ rest) (suc i) p n h e =
    let inner = Stacked-member low q rest i p n h.1 e in omega arith

Stacked-apart :
    (low limit : ℕ) (chunks : List (ℕ × ℕ)) (i j p n q m : ℕ)
    → Stacked low limit chunks
    → get_elem? chunks i ≡ some (p, n)
    → get_elem? chunks j ≡ some (q, m)
    → i < j
    → q + m ≤ p
Stacked-apart low limit [] i j p n q m h e f lt = cc
Stacked-apart low limit ((x, y) ∷ rest) i zero p n q m h e f lt = absurd (omega arith)
Stacked-apart low limit ((x, y) ∷ rest) zero (suc j) p n q m h e f lt =
    let below = Stacked-member low x rest j q m h.1 f in ground (arith, e)
Stacked-apart low limit ((x, y) ∷ rest) (suc i) (suc j) p n q m h e f lt =
    Stacked-apart low x rest i j p n q m h.1 e f (omega arith)

abbrev PcOk : Arena → Pc → Type 0
PcOk a idle = Unit
PcOk a (trying size log cur) = (cur ≤ a.head) × (size < 2 ^ 63) × (log < 63)

record Inv (base cap : ℕ) (s : World) : Type 0 where
  based : s.arena.base ≡ base
  capped : s.arena.cap ≡ cap
  place : IsPlaced s.arena
  threads : (i : ℕ) → PcOk s.arena (s.thread i)
  stacked : Stacked base (base + s.arena.head) s.granted

module _ {base cap : ℕ} {s : World} (inv : Inv base cap s) where
  open inv use {based, capped, place, threads, stacked}

  chunk :
      (i size log cur p next : ℕ)
      → s.thread i ≡ trying size log cur
      → reserve s.arena cur size (2 ^ log) ≡ some (p, next)
      → (cur ≤ s.arena.head) × IsChunk s.arena cur size (2 ^ log) p next
  chunk i size log cur p next at e =
      let (old, sized, small) = rw at at (threads i) in
      (
        old,
        reserve-IsChunk s.arena cur size log place (omega (arith, place.inside, old)) small sized p
            next e,
      )

  Step-Inv : {t : World} → Step s t → Inv base cap t
  Step-Inv (empty i at) = inv
  Step-Inv (load i size log at pos sized small) = record {
    based = based;
    capped = capped;
    place = place;
    threads = λ k. ground (arith, threads k);
    stacked = stacked;
  }
  Step-Inv (win i size log cur p next at e same) =
      let (old, c) = chunk i size log cur p next at e in
      record {
        based = based;
        capped = capped;
        place = record { space = place.space; inside = c.fits };
        threads = λ k. ground (arith, threads k, c.above, c.ends);
        stacked = (
          omega (arith, c.ends, based),
          Stacked-raise base (base + s.arena.head) p s.granted (omega (arith, c.above, based))
              stacked,
        );
      }
  Step-Inv (lose i size log cur p next at e) = record {
    based = based;
    capped = capped;
    place = place;
    threads = λ k. ground (arith, threads k, threads i);
    stacked = stacked;
  }
  Step-Inv (exhaust i size log cur at e) = record {
    based = based;
    capped = capped;
    place = place;
    threads = λ k. ground (arith, threads k);
    stacked = stacked;
  }

Reach-Inv : {a : Arena} {s : World} → IsPlaced a → Reach a s → Inv a.base a.cap s
Reach-Inv {a} place start = record {
  based = refl;
  capped = refl;
  place = place;
  threads = λ i. tt;
  stacked = omega arith;
}
Reach-Inv place (later r st) = Step-Inv (Reach-Inv place r) st

-- Under every interleaving of allocating threads, two chunks of at least one byte that were handed out
-- do not overlap, and each lies between the start and the end of the arena.
pub granted_disjoint :
    {a : Arena} {s : World} (i j p n q m : ℕ)
    → IsPlaced a
    → Reach a s
    → get_elem? s.granted i ≡ some (p, n)
    → get_elem? s.granted j ≡ some (q, m)
    → i < j
    → (q + m ≤ p) × (a.base ≤ q) × (p + n ≤ a.base + a.cap)
granted_disjoint {a} {s} i j p n q m place r e f lt =
    let inv = Reach-Inv place r in
    (
      Stacked-apart a.base _ s.granted i j p n q m inv.stacked e f lt,
      (Stacked-member a.base _ s.granted j q m inv.stacked f).0,
      omega (
        arith,
        (Stacked-member a.base _ s.granted i p n inv.stacked e).1,
        inv.place.inside,
        inv.capped,
      ),
    )
