-- ===== src/Executor.antt =====
-- crates/zerokv/src/executor.rs: the run queue of the executor, whatever the futures do.
pub mod Runs
pub mod Block
pub mod Reads
mod Tests
use zerokv.Prelude.{
  ℕ, zero, suc, ◌+◌, ◌-◌, ◌≡◌, ◌<◌, Bool, true, false, List, [], ◌∷◌, ◌++◌, ◌==◌, if◌then◌else◌,
}

-- Where `run` stands: before it takes a task, while it polls one, and after it has returned. The
-- number with `returned` is a record of the past: how many tasks had been spawned by then.
pub data Runner : Type 0 where
  taking : Runner
  polling : ℕ → Runner
  returned : (upto : ℕ) → Runner

-- Tasks go by the order in which `spawn` counts them. `slot` says which of them still have their
-- future; the one that is being polled counts as having it, since its mutex is held. `pushing` says
-- which tasks their `spawn` has counted and not yet pushed.
pub record World : Type 0 where
  pub ready : List ℕ
  pub outstanding : ℕ
  pub spawned : ℕ
  pub pushing : ℕ → Bool
  pub slot : ℕ → Bool
  pub runner : Runner

abbrev pub upd {ℓ} : {A : Type ℓ} → (ℕ → A) → ℕ → A → ℕ → A
upd f i v j = if i == j then v else f j

-- Any thread may spawn at any time, also while `run` goes on. A future may wake a task while it is
-- polled, and so may another thread at any time: `wake`. `run` holds the queue's lock from the pop
-- that finds nothing to the load of the counter, so that `return` is one step.
pub data Step (s : World) : World → Type 0 where
  spawn : Step s (record s {
    slot = upd s.slot s.spawned true;
    outstanding = suc s.outstanding;
    pushing = upd s.pushing s.spawned true;
    spawned = suc s.spawned;
  })
  spawn_push :
      (t : ℕ)
      → t < s.spawned
      → s.pushing t ≡ true
      → Step s (record s { ready = s.ready ++ t ∷ []; pushing = upd s.pushing t false })
  wake :
      (t : ℕ)
      → t < s.spawned
      → s.pushing t ≡ false
      → Step s (record s { ready = s.ready ++ t ∷ [] })
  take :
      (t : ℕ) (rest : List ℕ)
      → s.runner ≡ taking
      → s.ready ≡ t ∷ rest
      → s.slot t ≡ true
      → Step s (record s { ready = rest; runner = polling t })
  take_finished :
      (t : ℕ) (rest : List ℕ)
      → s.runner ≡ taking
      → s.ready ≡ t ∷ rest
      → s.slot t ≡ false
      → Step s (record s { ready = rest })
  poll_pending : (t : ℕ) → s.runner ≡ polling t → Step s (record s { runner = taking })
  poll_ready :
      (t : ℕ)
      → s.runner ≡ polling t
      → Step s
          (record s { slot = upd s.slot t false; outstanding = s.outstanding - 1; runner = taking })
  return :
      s.runner ≡ taking
      → s.ready ≡ []
      → s.outstanding ≡ 0
      → Step s (record s { runner = returned s.spawned })

-- A new executor whose `run` is called.
abbrev pub init : World
init = record {
  ready = [];
  outstanding = 0;
  spawned = 0;
  pushing = λ _. false;
  slot = λ _. false;
  runner = taking;
}

pub data Reach : World → Type 0 where
  start : Reach init
  later : {s t : World} → Reach s → Step s t → Reach t
