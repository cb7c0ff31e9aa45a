-- ===== src/Backoff/Tests.antt =====
-- Runs of the backoff on small inputs.
use zerokv.Prelude.{
  ◌+◌, ◌^◌, ◌/◌, ◌≤◌, ◌<◌, ◌≡◌, ◌↔◌, refl, min, max, arith, List, [], ◌∷◌, length, leb,
}
use zerokv.Backoff.{new, iterations, spin, is_completed, output, random_geometric_level, climb}
use zerokv.Backoff.Spins.{Call, spins, snoozes, after_calls, spin_lem}
use zerokv.Backoff.Levels.{Ones, random_geometric_level_lem}

abbrev calls : List Call
calls = spins ∷ snoozes ∷ spins ∷ []

climb-digits : climb 7 1 111 ≡ 3
unfolding climb
climb-digits = refl

spin_lem_example :
    (2 ^ min (length calls) 6 ≤ iterations (after_calls (new 4096) calls))
    × (iterations (after_calls (new 4096) calls)
        < 2 ^ min (length calls) 6 + max (2 ^ min (length calls) 6 / 2) 1)
    × (iterations (after_calls (new 4096) calls) ≤ 95)
    × ((spin (after_calls (new 4096) calls)).0 ≡ leb (length calls) 6)
    × (is_completed (after_calls (new 4096) calls) ≡ leb 11 (length calls))
unfolding new
spin_lem_example = spin_lem (new 4096) calls refl

random_geometric_level_lem_example :
    (2 < (random_geometric_level 42 8).0 ↔ ((2 < 8) × Ones 2 (output 42)))
    × (1 ≤ (random_geometric_level 42 8).0)
    × ((random_geometric_level 42 8).0 ≤ 8)
random_geometric_level_lem_example = random_geometric_level_lem 42 8 2 (omega arith)
