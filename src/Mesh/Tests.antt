-- ===== src/Mesh/Tests.antt =====
-- A run of two workers: the first sends a put to the second, which applies it and exits.
use zerokv.Prelude.{ℕ, zero, suc, ◌-◌, ◌≡◌, ◌≢◌, refl, List, [], ◌∷◌, ◌++◌, arith}
use zerokv.Words.{next_power_of_two}
use zerokv.Index.{route, fnv1a}
use zerokv.Mesh.{
  Item, quiescing, exited, World, workers, Reach, start, later, put_remote, push, pop, insert,
  count, finish, see_done, see_sent, exit,
}
use zerokv.Mesh.Flow.{mine, from, replay, in_hand, pending}
use zerokv.Mesh.Quiesce.{puts_in_order, exited-applied}

abbrev work : ℕ → List Item
work zero = (0 ∷ [], 7 ∷ []) ∷ []
work (suc i) = []

quiescing-exited : quiescing ≢ exited
quiescing-exited e = cc

abbrev run : (s : World) × Reach 2 work s
unfolding next_power_of_two route fnv1a
run = (
  _,
  later
      (later
        (later
          (later
            (later
              (later
                (later
                  (later
                    (later
                      (later start (
                        put_remote 0 (0 ∷ []) (7 ∷ []) [] (omega arith) refl refl refl
                          (λ e. absurd (omega (arith, e)))))
                      (push 0 (0 ∷ []) (7 ∷ []) 1 (omega arith) refl refl (omega arith)))
                    (finish 0 (omega arith) refl refl refl))
                  (finish 1 (omega arith) refl refl refl))
                (pop 0 1 (0 ∷ [], 7 ∷ []) [] (omega arith) (omega arith) quiescing-exited refl
                  refl))
              (insert 0 1 (0 ∷ [], 7 ∷ []) (omega arith) refl))
            (count 1 (omega arith) refl))
          (see_done 1 (omega arith) refl refl refl))
        (see_sent 1 (omega arith) refl refl))
      (exit 1 1 (omega arith) refl refl refl),
)

puts_in_order_example :
    (from 0 (run.0.order 1)
        ++ (in_hand 0 (run.0.applying 1) ++ pending (workers 2 - 1) 1 (run.0.row 0))
      ≡ mine (workers 2 - 1) 1 (work 0))
    × (run.0.shard 1 (0 ∷ []) ≡ replay (run.0.order 1) (0 ∷ []))
puts_in_order_example = puts_in_order 2 work 0 1 (0 ∷ []) run.1

exited-applied_example :
    (from 0 (run.0.order 1) ≡ mine (workers 2 - 1) 1 (work 0)) × ((run.0.row 0).queue 1 ≡ [])
unfolding next_power_of_two run
exited-applied_example =
    exited-applied 2 work 1 0 1 run.1 (omega arith) refl (omega arith) (omega arith)
