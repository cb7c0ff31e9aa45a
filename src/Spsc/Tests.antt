-- ===== src/Spsc/Tests.antt =====
-- Runs of the ring on small inputs.
use zerokv.Prelude.{
  ℕ, suc, ◌+◌, ◌≤◌, max, ◌≡◌, refl, none, some, List, [], ◌∷◌, map, length, take, drop, arith,
}
use zerokv.Words.{next_power_of_two}
use zerokv.Spsc.{
  channel, push, pop, drain, drop_slots, is_full, write_slot, publish, read_slot, ok, err,
}
use zerokv.Spsc.Queue.{
  Call, put, get, pushed, popped, serve, fifo, channel-refines_queue, push_all, drain-push_all,
}
use zerokv.Spsc.Steps.{Channel, Turn, produce, consume, turn, run, start}
use zerokv.Spsc.Steps.History.{channel_fifo}
use zerokv.Spsc.Steps.Release.{drop-rest}

abbrev calls : List (Call ℕ)
calls = put 7 ∷ put 8 ∷ put 9 ∷ get ∷ put 9 ∷ get ∷ get ∷ get ∷ []

-- A ring of two slots is full at the third `push`, and empty at the fourth `pop`.
serve-calls :
    serve (channel 1) calls
    ≡ pushed ok
      ∷ pushed ok
      ∷ pushed (err 9)
      ∷ popped (some (some 7))
      ∷ pushed ok
      ∷ popped (some (some 8))
      ∷ popped (some (some 9))
      ∷ popped none
      ∷ []
unfolding serve channel push pop next_power_of_two
serve-calls = refl

channel-refines_queue_example :
    serve (channel 1) calls ≡ fifo (next_power_of_two (max 1 2)) [] calls
channel-refines_queue_example = channel-refines_queue 1 calls (omega arith)

drain-push_all_example :
    (drain (push_all (channel {T = ℕ} 4) (1 ∷ 2 ∷ 3 ∷ [])) 2).0 ≡ map some (take 2 (1 ∷ 2 ∷ 3 ∷ []))
unfolding next_power_of_two
drain-push_all_example = drain-push_all 4 2 (1 ∷ 2 ∷ 3 ∷ []) (omega arith) (omega arith)

-- The producer is inside its second `push` when the consumer takes the first value.
abbrev turns : List (Turn ℕ)
turns =
    produce 5
    ∷ produce 0
    ∷ produce 0
    ∷ produce 0
    ∷ produce 6
    ∷ consume
    ∷ produce 0
    ∷ consume
    ∷ produce 0
    ∷ consume
    ∷ consume
    ∷ produce 0
    ∷ []

abbrev after : Channel ℕ
after = run (start (channel 2)) turns

after_turns : (after.pushed ≡ 5 ∷ 6 ∷ []) × (after.popped ≡ some 5 ∷ [])
unfolding run turn start channel next_power_of_two is_full write_slot publish read_slot
after_turns = (refl, refl)

channel_fifo_example :
    (after.popped ≡ map some (take (length after.popped) after.pushed))
    × (length after.popped ≤ length after.pushed)
    × (length after.pushed ≤ length after.popped + next_power_of_two (max 2 2))
channel_fifo_example = channel_fifo 2 turns (omega arith)

drop-rest_example :
    drop_slots (suc (length after.ring.buf)) after.ring after.ring.head after.ring.tail
    ≡ (map some (drop (length after.popped) after.pushed), after.ring.tail)
drop-rest_example = drop-rest 2 turns (omega arith)
