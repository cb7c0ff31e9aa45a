-- ===== src/Executor/Runs.antt =====
-- What the counter counts, and when `run` returns.
use zerokv.Prelude.{
  ℕ, suc, ◌≤◌, ◌<◌, ◌≡◌, ◌≢◌, inl, inr, refl, sym, ap, ◌∙◌, subst, Bool, true, false, List, [], ◌∷◌,
  ◌++◌, arith, ==_refl, ==_ne, All, All-append, Bool-cases,
}
use zerokv.Mesh.Sums.{sum, sum_same, sum_change, sum-le}
use zerokv.Executor.{
  World, Runner, taking, polling, returned, upd, Step, spawn, spawn_push, wake, take, take_finished,
  poll_pending, poll_ready, return, Reach, start, later,
}

abbrev pub one : Bool → ℕ
one true = 1
one false = 0

abbrev pub Polled : World → Runner → Type 0
Polled s taking = Unit
Polled s (polling t) = (t < s.spawned) × (s.slot t ≡ true)
Polled s (returned n) = (n ≤ s.spawned) × ((t : ℕ) → t < n → s.slot t ≡ false)

record Inv (s : World) : Type 0 where
  counted : s.outstanding ≡ sum s.spawned (λ t. one (s.slot t))
  queued : All (λ t. t < s.spawned) s.ready
  polled : Polled s s.runner

All-later : (n m : ℕ) (xs : List ℕ) → n ≤ m → All (λ t. t < n) xs → All (λ t. t < m) xs
All-later n m [] le h = tt
All-later n m (x ∷ xs) le h = (omega (arith, h.0), All-later n m xs le h.1)

upd_same : (f : ℕ → Bool) (i : ℕ) (v : Bool) → upd f i v i ≡ v
upd_same f i v = rw (==_refl i) refl

upd_other : (f : ℕ → Bool) (i : ℕ) (v : Bool) (j : ℕ) → j ≢ i → upd f i v j ≡ f j
upd_other f i v j ne = rw (==_ne i j (λ e. ne (sym e))) refl

module _ {s : World} (inv : Inv s) where
  spawn-Polled :
      (r : Runner)
      → Polled s r
      → Polled
          (record s {
            slot = upd s.slot s.spawned true;
            outstanding = suc s.outstanding;
            pushing = upd s.pushing s.spawned true;
            spawned = suc s.spawned;
          })
          r
  spawn-Polled taking h = tt
  spawn-Polled (polling t) h = (
    omega (arith, h.0),
    upd_other s.slot s.spawned true t (λ e. absurd (omega (arith, h.0, e))) ∙ h.1,
  )
  spawn-Polled (returned n) h = (
    omega (arith, h.0),
    λ t lt. upd_other s.slot s.spawned true t (λ e. absurd (omega (arith, lt, h.0, e))) ∙ h.1 t lt,
  )

  -- Where the counter is 0, no task has its future.
  none_left-completed : s.outstanding ≡ 0 → (t : ℕ) → t < s.spawned → s.slot t ≡ false
  none_left-completed none_left t lt = elim (Bool-cases (s.slot t)) [
    | inl e ↦ absurd (
        omega
          (arith, inv.counted, none_left, ap one e, sum-le s.spawned (λ u. one (s.slot u)) t lt))
    | inr e ↦ e
  ]

  push-queued : (t : ℕ) → t < s.spawned → All (λ u. u < s.spawned) (s.ready ++ t ∷ [])
  push-queued t lt = All-append (λ u. u < s.spawned) s.ready (t ∷ []) inv.queued (lt, tt)

  Step-Inv : {t : World} → Step s t → Inv t
  Step-Inv spawn = record {
    counted = omega (
      arith,
      inv.counted,
      ap one (upd_same s.slot s.spawned true),
      sum_same s.spawned (λ t. one (upd s.slot s.spawned true t)) (λ t. one (s.slot t))
          (λ t lt. ap one (upd_other s.slot s.spawned true t (λ e. absurd (omega arith)))),
    );
    queued = All-later s.spawned (suc s.spawned) s.ready (omega arith) inv.queued;
    polled = spawn-Polled s.runner inv.polled;
  }
  Step-Inv (spawn_push t lt new) = record {
    counted = inv.counted;
    queued = push-queued t lt;
    polled = inv.polled;
  }
  Step-Inv (wake t lt old) = record {
    counted = inv.counted;
    queued = push-queued t lt;
    polled = inv.polled;
  }
  Step-Inv (take t rest e first held) =
      let queued = subst (All (λ u. u < s.spawned)) first inv.queued in
      record { counted = inv.counted; queued = queued.1; polled = (queued.0, held) }
  Step-Inv (take_finished t rest e first gone) = record {
    counted = inv.counted;
    queued = (subst (All (λ u. u < s.spawned)) first inv.queued).1;
    polled = inv.polled;
  }
  Step-Inv (poll_pending t e) = record { counted = inv.counted; queued = inv.queued; polled = tt }
  Step-Inv (poll_ready t e) =
      let known = subst (Polled s) e inv.polled in
      record {
        counted = omega (
          arith,
          inv.counted,
          ap one known.1,
          ap one (upd_same s.slot t false),
          sum_change s.spawned (λ u. one (upd s.slot t false u)) (λ u. one (s.slot u)) t known.0
              (λ u ne. ap one (upd_other s.slot t false u ne)),
        );
        queued = inv.queued;
        polled = tt;
      }
  Step-Inv (return e empty none_left) = record {
    counted = inv.counted;
    queued = inv.queued;
    polled = (omega arith, none_left-completed none_left);
  }

Reach-Inv : {s : World} → Reach s → Inv s
Reach-Inv start = record { counted = refl; queued = tt; polled = tt }
Reach-Inv (later r step) = Step-Inv (Reach-Inv r) step

-- Whatever the futures do, whoever wakes them and whoever spawns more: when `run` has returned, every
-- task that had been spawned before it returned, `upto` in number, has completed.
pub returned-completed :
    {s : World} (upto : ℕ)
    → Reach s
    → s.runner ≡ returned upto
    → (upto ≤ s.spawned) × ((t : ℕ) → t < upto → s.slot t ≡ false)
returned-completed {s} upto r e = subst (Polled s) e (Reach-Inv r).polled
