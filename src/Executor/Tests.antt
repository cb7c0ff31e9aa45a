-- ===== src/Executor/Tests.antt =====
-- A run in which one task is pending once, is woken and completes; and futures that are driven alone.
use zerokv.Prelude.{
  ◌≤◌, ◌<◌, ◌==◌, Bool, ◌↔◌, ℕ, zero, suc, ◌≡◌, refl, false, true, Option, none, some, List, [],
  ◌∷◌, arith,
}
use zerokv.Executor.{
  World, Reach, start, later, spawn, spawn_push, wake, take, poll_pending, poll_ready, return,
}
use zerokv.Executor.Runs.{returned-completed}
use zerokv.Executor.Block.{Polled, rounds, unblock, block_on}
use zerokv.Executor.Block.Wakes.{
  at_once, not_yet, Driven, ready, self_woken, woken, block_on-Driven,
}
use zerokv.Executor.Reads.{DirectIoRead, new_read, poll_read, IsRead, block_on-new_read}

abbrev run : (s : World) × Reach s
run = (
  _,
  later
      (later
        (later
          (later
            (later
              (later (later (later start spawn) (spawn_push 0 (omega arith) refl))
                (take 0 [] refl refl refl))
              (wake 0 (omega arith) refl))
            (poll_pending 0 refl))
          (take 0 [] refl refl refl))
        (poll_ready 0 refl))
      (return refl refl refl),
)

returned-completed_example : (1 ≤ run.0.spawned) × ((t : ℕ) → t < 1 → run.0.slot t ≡ false)
returned-completed_example = returned-completed 1 run.1 refl

-- A future that is pending as often as its state says, and wakes itself the first time.
abbrev countdown : ℕ → Option (Polled ℕ ℕ)
countdown zero = some (record { result = some 7; woke = false; after = 0 })
countdown (suc zero) = some (record { result = none; woke = false; after = 0 })
countdown (suc (suc n)) = some (record { result = none; woke = true; after = suc n })

-- Another thread wakes once, in round 4.
abbrev wakes_once : ℕ → Bool
wakes_once i = i == 4

abbrev driven : Driven countdown wakes_once 0 2 5 7
driven = self_woken _ refl refl refl (
    woken _ 4 refl refl refl (not_yet refl (not_yet refl (not_yet refl (at_once refl refl))))
      (ready _ refl refl refl))

block_on-Driven_example :
    (block_on 6 countdown wakes_once 2 ≡ some 7)
    ↔ ((last : ℕ) × (last < 6) × Driven countdown wakes_once 0 2 last 7)
block_on-Driven_example = block_on-Driven countdown wakes_once 6 2 7

-- The run of this future returns in round 5, and not before.
driven-returns :
    (block_on 6 countdown wakes_once 2 ≡ some 7) × (block_on 5 countdown wakes_once 2 ≡ none)
unfolding block_on rounds unblock
driven-returns = ((block_on-Driven countdown wakes_once 6 2 7).1 (5, omega arith, driven), refl)

block_on-new_read_example :
    (r : DirectIoRead) × (out : List ℕ) × (new_read (7 ∷ 8 ∷ []) 3 ≡ some r)
    × (block_on 2 poll_read (λ _. false) r ≡ some out)
    × IsRead (7 ∷ 8 ∷ []) 3 out
block_on-new_read_example =
    block_on-new_read 0 (λ _. false) (7 ∷ 8 ∷ []) 3 (omega arith) (omega arith)
