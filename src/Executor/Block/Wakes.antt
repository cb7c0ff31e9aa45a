-- ===== src/Executor/Block/Wakes.antt =====
-- No wake is lost: when `block_on` polls, and when it returns.
use zerokv.Prelude.{
  ℕ, zero, suc, ◌+◌, ◌≤◌, ◌<◌, ◌≡◌, ◌≢◌, ◌↔◌, refl, sym, ◌∙◌, subst, Bool, true, false, Bool-cases,
  Option, none, some, Option-cases, inl, inr, ◌||◌, arith,
}
use zerokv.Executor.Block.{Polled, Spot, running, parked, unblock, rounds, block_on}

module _ {S A : Type 0} (poll : S → Option (Polled S A)) (wakes : ℕ → Bool) where
  -- A future that calls the waker while it is polled is polled again at once.
  pub rounds-woken :
      (f i : ℕ) (token : Bool) (s : S) (p : Polled S A)
      → poll s ≡ some p
      → p.result ≡ none
      → p.woke ≡ true
      → rounds poll wakes (suc f) i (running true token) s
        ≡ rounds poll wakes f (suc i) (running true (token || true)) p.after
  unfolding rounds
  rounds-woken f i token s p e r w = rw (rounds, e, r, w) refl

  pub rounds-ready :
      (f i : ℕ) (token : Bool) (s : S) (p : Polled S A) (v : A)
      → poll s ≡ some p
      → p.result ≡ some v
      → rounds poll wakes (suc f) i (running true token) s ≡ some v
  unfolding rounds
  rounds-ready f i token s p v e r = rw (rounds, e, r) refl

-- `FirstWake wakes i m`: the first round from `i` on in which another thread calls the waker is `m`.
pub data FirstWake (wakes : ℕ → Bool) : ℕ → ℕ → Type 0 where
  at_once : {i m : ℕ} → i ≡ m → wakes i ≡ true → FirstWake wakes i m
  not_yet : {i m : ℕ} → wakes i ≡ false → FirstWake wakes (suc i) m → FirstWake wakes i m

-- `Driven poll wakes i s last v`: a future in state `s` that is polled in round `i` and at last has
-- the result `v` in round `last`, where it is polled again after each pending poll in the round that
-- follows the first wake since: by the future itself while it is polled, or by another thread in the
-- round of the poll or later.
pub data Driven {S A : Type 0} (poll : S → Option (Polled S A)) (wakes : ℕ → Bool)
    : ℕ → S → ℕ → A → Type 0 where
  ready :
      {i : ℕ} {s : S} {last : ℕ} {v : A} (p : Polled S A)
      → i ≡ last
      → poll s ≡ some p
      → p.result ≡ some v
      → Driven poll wakes i s last v
  self_woken :
      {i : ℕ} {s : S} {last : ℕ} {v : A} (p : Polled S A)
      → poll s ≡ some p
      → p.result ≡ none
      → p.woke ≡ true
      → Driven poll wakes (suc i) p.after last v
      → Driven poll wakes i s last v
  woken :
      {i : ℕ} {s : S} {last : ℕ} {v : A} (p : Polled S A) (m : ℕ)
      → poll s ≡ some p
      → p.result ≡ none
      → p.woke ≡ false
      → FirstWake wakes i m
      → Driven poll wakes (suc m) p.after last v
      → Driven poll wakes i s last v

FirstWake-le : {wakes : ℕ → Bool} {i m : ℕ} → FirstWake wakes i m → i ≤ m
FirstWake-le (at_once same e) = omega arith
FirstWake-le (not_yet e w) = omega (arith, FirstWake-le w)

module _ {S A : Type 0} (poll : S → Option (Polled S A)) (wakes : ℕ → Bool) where
  Driven-le : {i : ℕ} {s : S} {last : ℕ} {v : A} → Driven poll wakes i s last v → i ≤ last
  Driven-le (ready p same e r) = omega arith
  Driven-le (self_woken p e r w d) = omega (arith, Driven-le d)
  Driven-le (woken p m e r w first d) = omega (arith, FirstWake-le first, Driven-le d)

  abbrev Sleeps : ℕ → S → ℕ → A → Type 0
  Sleeps i s last v = (m : ℕ) × FirstWake wakes i m × Driven poll wakes (suc m) s last v

  -- What is still to come of the thread where it stands.
  abbrev Due : ℕ → Spot → S → ℕ → A → Type 0
  Due i (running true token) s last v = Driven poll wakes i s last v
  Due i (running false token) s last v = Sleeps i s last v
  Due i parked s last v = Sleeps i s last v

  Due-le : (i : ℕ) (spot : Spot) (s : S) (last : ℕ) (v : A) → Due i spot s last v → i ≤ last
  Due-le i (running true token) s last v d = Driven-le d
  Due-le i (running false token) s last v (m, first, d) =
      omega (arith, FirstWake-le first, Driven-le d)
  Due-le i parked s last v (m, first, d) = omega (arith, FirstWake-le first, Driven-le d)

  drive :
      (f i : ℕ) (spot : Spot) (s : S) (last : ℕ) (v : A)
      → Due i spot s last v
      → last < i + f
      → rounds poll wakes f i spot s ≡ some v
  unfolding rounds unblock
  drive zero i spot s last v due lt = absurd (omega (arith, lt, Due-le i spot s last v due))
  drive (suc f) i parked s last v (m, at_once same e, d) lt =
      rw (rounds, e)
        (drive f (suc i) (running true false) s last v
          (subst (λ k. Driven poll wakes (suc k) s last v) (sym same) d) (omega (arith, lt)))
  drive (suc f) i parked s last v (m, not_yet e first, d) lt =
      rw (rounds, e) (drive f (suc i) parked s last v (m, first, d) (omega (arith, lt)))
  drive (suc f) i (running false false) s last v (m, at_once same e, d) lt =
      rw (rounds, e)
        (drive f (suc i) (running true false) s last v
          (subst (λ k. Driven poll wakes (suc k) s last v) (sym same) d) (omega (arith, lt)))
  drive (suc f) i (running false false) s last v (m, not_yet e first, d) lt =
      rw (rounds, e) (drive f (suc i) parked s last v (m, first, d) (omega (arith, lt)))
  drive (suc f) i (running false true) s last v (m, at_once same e, d) lt =
      rw (rounds, e)
        (drive f (suc i) (running true true) s last v
          (subst (λ k. Driven poll wakes (suc k) s last v) (sym same) d) (omega (arith, lt)))
  drive (suc f) i (running false true) s last v (m, not_yet e first, d) lt =
      rw (rounds, e)
        (drive f (suc i) (running false false) s last v (m, first, d) (omega (arith, lt)))
  drive (suc f) i (running true token) s last v (ready p same e r) lt = rw (rounds, e, r) refl
  drive (suc f) i (running true token) s last v (self_woken p e r w d) lt =
      rw (rounds, e, r, w)
        (drive f (suc i) (running true (token || true)) p.after last v d (omega (arith, lt)))
  drive (suc f) i (running true token) s last v (woken p m e r w (at_once same q) d) lt =
      rw (rounds, e, r, w, q)
        (drive f (suc i) (running true (token || true)) p.after last v
          (subst (λ k. Driven poll wakes (suc k) p.after last v) (sym same) d) (omega (arith, lt)))
  drive (suc f) i (running true token) s last v (woken p m e r w (not_yet q first) d) lt =
      rw (rounds, e, r, w, q)
        (drive f (suc i) (running false (token || false)) p.after last v (m, first, d)
          (omega (arith, lt)))

  Ends : ℕ → ℕ → Spot → S → A → Type 0
  Ends f i spot s v = (last : ℕ) × (last < i + f) × Due i spot s last v

  -- A thread that sleeps in round `i`, by what it comes to where it is woken and where it is not.
  slept :
      (f i : ℕ) (tok tok' : Bool) (s : S) (v : A)
      → (wakes i ≡ true → Ends f (suc i) (running true tok) s v)
      → (wakes i ≡ false → Ends f (suc i) (running false tok') s v)
      → (last : ℕ) × (last < i + suc f) × Sleeps i s last v
  unfolding Ends
  slept f i tok tok' s v up down = elim (Bool-cases (wakes i)) [
    | inl e ↦ let (last, lt, d) = up e in (last, omega (arith, lt), (i, at_once refl e, d))
    | inr e ↦
        let (last, lt, asleep) = down e in
        (last, omega (arith, lt), (asleep.0, not_yet e asleep.1, asleep.2))
  ]

  none-some : (v : A) → none ≢ some v
  none-some v e = cc

  ended :
      (f i : ℕ) (spot : Spot) (s : S) (v : A)
      → rounds poll wakes f i spot s ≡ some v
      → Ends f i spot s v
  unfolding rounds unblock Ends
  ended zero i spot s v h = cc
  ended (suc f) i parked s v h =
      slept f i false false s v (λ e. ended f (suc i) (running true false) s v (rw e at h))
        (λ e. ended f (suc i) parked s v (rw e at h))
  ended (suc f) i (running false false) s v h =
      slept f i false false s v (λ e. ended f (suc i) (running true false) s v (rw e at h))
        (λ e. ended f (suc i) parked s v (rw e at h))
  ended (suc f) i (running false true) s v h =
      slept f i true false s v (λ e. ended f (suc i) (running true true) s v (rw e at h))
        (λ e. ended f (suc i) (running false false) s v (rw e at h))
  ended (suc f) i (running true token) s v h = elim (Option-cases (poll s)) [
    | inl e ↦ absurd (none-some v (rw (e, rounds) at h))
    | inr (p, e) ↦ elim (Option-cases p.result) [
      | inr (w, r) ↦ (i, omega arith, ready p refl e (r ∙ rw (e, r, rounds) at h))
      | inl r ↦ elim (Bool-cases p.woke) [
        | inl w ↦
            let (last, lt, d) =
              ended f (suc i) (running true (token || true)) p.after v
                (rw (e, r, w, rounds) at h) in
            (last, omega (arith, lt), self_woken p e r w d)
        | inr w ↦
            let (last, lt, asleep) =
              slept f i (token || true) (token || false) p.after v
                (λ q.
                  ended f (suc i) (running true (token || true)) p.after v
                    (rw (e, r, w, q, rounds) at h))
                (λ q.
                  ended f (suc i) (running false (token || false)) p.after v
                    (rw (e, r, w, q, rounds) at h)) in
            (last, lt, woken p asleep.0 e r w asleep.1 asleep.2)
      ]
    ]
  ]

-- `block_on` returns the result `v` within `f` rounds exactly if the future comes to it in a round
-- before `f` when each pending poll is followed by the next in the round after the first wake since.
-- So a wake by the future while it is polled, or by another thread at any time since the poll began,
-- is never lost, and a future that nobody wakes after a pending poll is not polled again.
pub block_on-Driven :
    {S A : Type 0} (poll : S → Option (Polled S A)) (wakes : ℕ → Bool) (f : ℕ) (s : S) (v : A)
    → (block_on f poll wakes s ≡ some v) ↔ ((last : ℕ) × (last < f) × Driven poll wakes 0 s last v)
unfolding block_on Ends
block_on-Driven poll wakes f s v = (
  λ h.
      let (last, lt, d) = ended poll wakes f 0 (running true false) s v h in
      (last, omega (arith, lt), d),
  λ (last, lt, d). drive poll wakes f 0 (running true false) s last v d (omega (arith, lt)),
)
