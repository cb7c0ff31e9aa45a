-- ===== src/Spsc/Steps/Release.antt =====
-- What is left in a ring when its last owner drops it.
use zerokv.Prelude.{ℕ, suc, ◌^◌, ◌≤◌, ◌≡◌, some, List, map, length, drop, arith}
use zerokv.Spsc.{channel, drop_slots}
use zerokv.Spsc.Drop.{drop_slots-Holds}
use zerokv.Spsc.Window.{channel-Holds}
use zerokv.Spsc.Steps.{Turn, run, start}
use zerokv.Spsc.Steps.History.{run-Inv, start-Inv}

-- After every interleaving of the two ends, `Drop for Ring` visits exactly the values that `push`
-- accepted and `pop` has not returned, in order and each from a written slot, and it stops at the
-- tail within one round more than there are slots.
pub drop-rest :
    {T : Type 0} (capacity : ℕ) (ts : List (Turn T))
    → capacity ≤ 2 ^ 63
    → let ch = run (start (channel capacity)) ts in
      drop_slots (suc (length ch.ring.buf)) ch.ring ch.ring.head ch.ring.tail
      ≡ (map some (drop (length ch.popped) ch.pushed), ch.ring.tail)
drop-rest capacity ts small =
    let (k, h, size) = channel-Holds capacity small in
    let ch = run (start (channel capacity)) ts in
    let holds = (run-Inv k _ ts (start-Inv h)).holds in
    drop_slots-Holds _ ch.ring ch.ring.head ch.pushed (length ch.popped) holds
      (omega (arith, holds.slots, holds.room))
