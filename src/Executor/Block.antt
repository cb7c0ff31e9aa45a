-- ===== src/Executor/Block.antt =====
-- crates/zerokv/src/executor.rs: `block_on`, which polls a future on the calling thread.
pub mod Wakes
use zerokv.Prelude.{ℕ, zero, suc, Bool, true, false, Option, none, some, ◌||◌, if◌then◌else◌}

-- What a poll comes to: a result or not yet, whether the waker was called during it, and the future
-- after it.
pub record Polled (S A : Type 0) : Type 0 where
  pub result : Option A
  pub woke : Bool
  pub after : S

-- Where the thread of `block_on` stands: before the swap of its signal's flag `awake`, with the token
-- that an `unpark` has left or not, or blocked in `park`.
pub data Spot : Type 0 where
  running : (awake token : Bool) → Spot
  parked : Spot

-- A thread that blocks goes on when it is woken: the waker raises the flag, and its `unpark` is used
-- up by `park`. A thread that is not woken stays blocked.
unfoldable pub unblock : Bool → Spot
unblock woken = if woken then running true false else parked

-- The loop of `block_on`, with what happens in each round `i`. `poll` is none where it panics, and
-- `wakes i` says whether another thread calls the waker in round `i`, after the swap: the waker raises
-- the flag and unparks the thread. `park` returns at once if there is a token, which it uses up, and
-- blocks otherwise. A blocked thread lets rounds go by.
unfoldable pub rounds :
    {S A : Type 0} → (S → Option (Polled S A)) → (ℕ → Bool) → ℕ → ℕ → Spot → S → Option A
unfolding unblock
rounds poll wakes zero i spot s = none
rounds poll wakes (suc f) i parked s = rounds poll wakes f (suc i) (unblock (wakes i)) s
rounds poll wakes (suc f) i (running false false) s =
    rounds poll wakes f (suc i) (unblock (wakes i)) s
rounds poll wakes (suc f) i (running false true) s =
    rounds poll wakes f (suc i) (running (wakes i) (wakes i)) s
rounds poll wakes (suc f) i (running true token) s = elim (poll s) [
  | none ↦ none
  | some p ↦ elim p.result [
    | some v ↦ some v
    | none ↦
        let woken = p.woke || wakes i in
        rounds poll wakes f (suc i) (running woken (token || woken)) p.after
  ]
]

-- The flag is up at first, so that the future is polled at least once.
unfoldable pub block_on : {S A : Type 0} → ℕ → (S → Option (Polled S A)) → (ℕ → Bool) → S → Option A
block_on f poll wakes s = rounds poll wakes f 0 (running true false) s
