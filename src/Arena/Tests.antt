-- ===== src/Arena/Tests.antt =====
-- Runs of the arena and of its store on small inputs.
use zerokv.Prelude.{ℕ, ◌+◌, ◌≤◌, ◌<◌, ◌≡◌, ◌⊎◌, refl, none, some, List, [], ◌∷◌, arith}
use zerokv.Words.{align_up}
use zerokv.Memory.{read_bytes, write_bytes}
use zerokv.Arena.{Arena, reserve, alloc_raw, push_bytes, checked_add, with_capacity}
use zerokv.Arena.Bounds.{IsPlaced, IsChunk, alloc_raw-IsChunk}
use zerokv.Arena.Race.{World, Reach, start, later, load, win, lose, granted_disjoint}
use zerokv.Arena.Kv.{ArenaKv, new, put, get}
use zerokv.Arena.Kv.Entries.{first_value}
use zerokv.Arena.Kv.Puts.{put_all, admitted}
use zerokv.Arena.Kv.Replay.{get-put_all}

abbrev small : Arena
small = record { base = 4096; cap = 32; align = 64; head = 5; mem = λ _. 0 }

small-IsPlaced : IsPlaced small
small-IsPlaced = record { space = omega arith; inside = omega arith }

alloc_raw-aligned : alloc_raw small 4 8 ≡ (some 4104, record small { head = 12 })
unfolding alloc_raw align_up
alloc_raw-aligned = refl

alloc_raw-IsChunk_example :
    ((◌≡◌ {A = ℕ} 4 0) × (alloc_raw small 4 8 ≡ (some 4096, small)))
    ⊎ ((0 < 4) × (alloc_raw small 4 8 ≡ (none, small)) × (4096 + 32 < align_up (4096 + 5) 8 + 4))
    ⊎ ((0 < 4)
        × (p : ℕ) × (next : ℕ) × (alloc_raw small 4 8 ≡ (some p, record small { head = next }))
        × IsChunk small 5 4 8 p next)
alloc_raw-IsChunk_example = alloc_raw-IsChunk small 4 3 small-IsPlaced (omega arith) (omega arith)

-- Two threads load the cursor; the second loses the race, and retries.
abbrev schedule : (s : World) × Reach small s
unfolding reserve checked_add align_up
schedule = (
  _,
  later
      (later
        (later
          (later (later start (load 0 4 3 refl (omega arith) (omega arith) (omega arith)))
            (load 1 10 0 refl (omega arith) (omega arith) (omega arith)))
          (win 0 4 3 5 4104 12 refl refl refl))
        (lose 1 10 0 5 4101 15 refl refl))
      (win 1 10 0 12 4108 22 refl refl refl),
)

granted_disjoint_example : (4104 + 4 ≤ 4108) × (4096 ≤ 4104) × (4108 + 10 ≤ 4096 + 32)
unfolding reserve checked_add align_up
granted_disjoint_example =
    granted_disjoint 0 1 4108 10 4104 4 small-IsPlaced schedule.1 refl refl (omega arith)

abbrev fresh_store : ArenaKv
fresh_store = record {
  arena = record { base = 4096; cap = 8; align = 64; head = 0; mem = λ _. 0 };
  entries = [];
}

-- A key that is put twice keeps its first value; the third pair does not fit.
abbrev puts : List (List ℕ × List ℕ)
puts = (1 ∷ [], 7 ∷ 7 ∷ []) ∷ (1 ∷ [], 8 ∷ []) ∷ (2 ∷ [], 9 ∷ 9 ∷ 9 ∷ []) ∷ []

get-puts : get (put_all fresh_store puts) (1 ∷ []) ≡ some (7 ∷ 7 ∷ [])
unfolding get put_all put push_bytes alloc_raw reserve checked_add align_up write_bytes read_bytes
get-puts = refl

get-put_all_example :
    get (put_all fresh_store puts) (1 ∷ []) ≡ first_value (admitted 8 puts) (1 ∷ [])
unfolding new with_capacity
get-put_all_example =
    get-put_all 4096 (λ _. 0) 8 fresh_store puts (1 ∷ []) (omega arith) refl (omega arith)
