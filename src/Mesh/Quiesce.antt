-- ===== src/Mesh/Quiesce.antt =====
-- What the mesh has done after every step, and when a worker exits.
use native.Mathlib.Nat.{mod-lt, one-le-pow}
use mathlib.Core.List.{append-nil}
use zerokv.Prelude.{
  ℕ, zero, suc, ◌+◌, ◌-◌, ◌<◌, ◌≡◌, ◌≢◌, refl, sym, ap, ap₂, ◌∙◌, subst, max, bit_and, List, [],
  ◌∷◌, ◌++◌, length, arith,
}
use zerokv.Words.Mask.{bit_and_mask, next_power_of_two-IsRounded}
use zerokv.Index.{Bytes, route, fnv1a}
use zerokv.Mesh.{
  Item, Pc, producing, sending, quiescing, saw_done, saw_sent, exited, Applying, nothing, taken,
  inserted, World, init, workers, Reach, start, later,
}
use zerokv.Mesh.Sums.{sum, sum-le}
use zerokv.Mesh.Flow.{
  mine, from, replay, in_hand, load, hand, pending, weight, flag, Inv, Seen, busy,
}
use zerokv.Mesh.Steps.{Step-Inv}

route-lt_workers :
    (requested : ℕ) (key : Bytes) → route (workers requested - 1) key < workers requested
unfolding route
route-lt_workers requested key =
    let rounded = next_power_of_two-IsRounded (max requested 1) (omega arith) in
    omega (
      arith,
      ap (λ n. bit_and (fnv1a key) (n - 1)) rounded.power,
      bit_and_mask rounded.log (fnv1a key),
      mod-lt (fnv1a key) (one-le-pow rounded.log 2 (omega arith)),
      rounded.power,
    )

sum_zero : (n : ℕ) → sum n (λ _. 0) ≡ 0
sum_zero zero = refl
sum_zero (suc n) = omega (arith, sum_zero n)

init-Inv : (n mask : ℕ) (work : ℕ → List Item) → Inv n mask work (init work)
init-Inv n mask work = record {
  rows = λ i. record { pcs = tt; self = refl; ended = λ up. absurd (omega (arith, up)) };
  flow = λ i j. refl;
  stored = λ j q. refl;
  counts = omega (arith, sum_zero n, ap (λ k. sum n (λ _. k)) (none_sent n));
  phases = sym (sum_zero n);
  seen = λ i. tt;
}
  where
    none_sent : (m : ℕ) → 0 + sum m (λ _. 0) ≡ 0
    none_sent m = omega (arith, sum_zero m)

Reach-Inv :
    (requested : ℕ) (work : ℕ → List Item) {s : World}
    → Reach requested work s
    → Inv (workers requested) (workers requested - 1) work s
Reach-Inv requested work start = init-Inv (workers requested) (workers requested - 1) work
Reach-Inv requested work (later r step) =
    Step-Inv (route-lt_workers requested) (Reach-Inv requested work r) step

-- After every step of any worker, for every worker `i` and every shard `j`: the puts of `i` that are in
-- the shard `j`, the one that `j` has in hand for it, those in the queue between them, the one that
-- `i` is sending and those that `i` has not come to are together, in this order, the puts of the
-- workload of `i` whose keys `j` owns. And the shard holds what the puts that are in it, of all
-- workers, leave one after another.
pub puts_in_order :
    (requested : ℕ) (work : ℕ → List Item) (i j : ℕ) (key : Bytes) {s : World}
    → Reach requested work s
    → (from i (s.order j)
          ++ (in_hand i (s.applying j) ++ pending (workers requested - 1) j (s.row i))
        ≡ mine (workers requested - 1) j (work i))
      × (s.shard j key ≡ replay (s.order j) key)
puts_in_order requested work i j key r =
    let inv = Reach-Inv requested work r in (inv.flow i j, inv.stored j key)

length-zero : (xs : List Item) → length xs ≡ 0 → xs ≡ []
length-zero [] e = refl
length-zero (x ∷ xs) e = absurd (omega (arith, e))

hand_done : (p : Pc) (j : ℕ) → flag p ≡ 1 → hand p j ≡ []
hand_done producing j e = absurd (omega (arith, e))
hand_done (sending key val dst) j e = absurd (omega (arith, e))
hand_done quiescing j e = refl
hand_done saw_done j e = refl
hand_done (saw_sent m) j e = refl
hand_done exited j e = refl

in_hand_done : (i : ℕ) (a : Applying) → load a ≡ 0 → in_hand i a ≡ []
in_hand_done i nothing e = refl
in_hand_done i (taken src item) e = absurd (omega (arith, e))
in_hand_done i inserted e = refl

flag-one : (p : Pc) → flag p ≢ 0 → flag p ≡ 1
flag-one producing ne = absurd (ne refl)
flag-one (sending key val dst) ne = absurd (ne refl)
flag-one quiescing ne = refl
flag-one saw_done ne = refl
flag-one (saw_sent m) ne = refl
flag-one exited ne = refl

-- Once one worker has exited, every shard has applied every put of every worker's workload that is
-- its own, those of one worker in their order, and no queue holds a command.
pub exited-applied :
    (requested : ℕ) (work : ℕ → List Item) (k i j : ℕ) {s : World}
    → Reach requested work s
    → k < workers requested
    → (s.row k).pc ≡ exited
    → i < workers requested
    → j < workers requested
    → (from i (s.order j) ≡ mine (workers requested - 1) j (work i)) × ((s.row i).queue j ≡ [])
exited-applied requested work k i j {s} r lt_k out lt_i lt_j =
    let inv = Reach-Inv requested work r in
    let seen = subst (Seen (workers requested) s.phase1_done s.sent s.applied) out (inv.seen k) in
    let done = flag-one (s.row i).pc (λ e. absurd (omega (arith, busy inv i lt_i e, seen.0))) in
    let queue_empty = length-zero ((s.row i).queue j) (
      omega (
        arith,
        inv.counts,
        seen.1,
        sum-le (workers requested) (λ m. weight (workers requested) (s.row m)) i lt_i,
        sum-le (workers requested) (λ m. length ((s.row i).queue m)) j lt_j,
      )) in
    let held = in_hand_done i (s.applying j) (
      omega (
        arith,
        inv.counts,
        seen.1,
        sum-le (workers requested) (λ m. load (s.applying m)) j lt_j,
      )) in
    (
      sym (append-nil (from i (s.order j)))
          ∙ ap (λ l. from i (s.order j) ++ l)
              (sym (
                ap₂ (λ (a b : List Item). a ++ b) held
                  (ap₂ (λ (a b : List Item). a ++ b) queue_empty
                    (ap₂ (λ (a b : List Item). a ++ b) (hand_done (s.row i).pc j done)
                      (ap (mine (workers requested - 1) j) ((inv.rows i).ended done))))))
          ∙ inv.flow i j,
      queue_empty,
    )
