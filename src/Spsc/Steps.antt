-- ===== src/Spsc/Steps.antt =====
-- The two ends of the ring running at once: each turn is one load or store of `push` or of `pop`.
-- The loads and stores are taken in one order that both ends see.
pub mod History
pub mod Release
use zerokv.Prelude.{ℕ, Option, List, [], ◌∷◌, ◌++◌, ◌==◌, if◌then◌else◌}
use zerokv.Spsc.{Ring, is_full, write_slot, publish, read_slot, release}

-- Where the producer stands in `push`.
pub data Producer (T : Type 0) : Type 0 where
  resting : Producer T
  got_tail : T → ℕ → Producer T  -- `tail` is loaded
  got_head : T → ℕ → ℕ → Producer T  -- `tail` and `head` are loaded
  wrote : T → ℕ → Producer T  -- the slot is written, `tail` is not yet stored

-- Where the consumer stands in `pop`.
pub data Consumer (T : Type 0) : Type 0 where
  waiting : Consumer T
  saw_head : ℕ → Consumer T
  saw_tail : ℕ → ℕ → Consumer T
  took : Option T → ℕ → Consumer T  -- the slot is read, `head` is not yet stored

-- The ring, both ends, and two records of the past: the values whose `push` has returned `Ok`,
-- oldest first, and the values that `pop` has returned.
pub record Channel (T : Type 0) : Type 0 where
  pub ring : Ring T
  pub producer : Producer T
  pub consumer : Consumer T
  pub pushed : List T
  pub popped : List (Option T)

-- A turn names the end that moves; a `push` that starts then takes the value.
pub data Turn (T : Type 0) : Type 0 where
  produce : T → Turn T
  consume : Turn T

module _ {T : Type 0} where
  pub produce_from : Channel T → T → Producer T → Channel T
  produce_from c v resting = record c { producer = got_tail v c.ring.tail }
  produce_from c v (got_tail value tail) = record c { producer = got_head value tail c.ring.head }
  produce_from c v (got_head value tail head) =
      if is_full c.ring tail head
      then record c { producer = resting }
      else record c { ring = write_slot c.ring tail value; producer = wrote value tail }
  produce_from c v (wrote value tail) = record c {
    ring = publish c.ring tail;
    producer = resting;
    pushed = c.pushed ++ value ∷ [];
  }

  pub consume_from : Channel T → Consumer T → Channel T
  consume_from c waiting = record c { consumer = saw_head c.ring.head }
  consume_from c (saw_head head) = record c { consumer = saw_tail head c.ring.tail }
  consume_from c (saw_tail head tail) =
      if head == tail
      then record c { consumer = waiting }
      else record c { consumer = took (read_slot c.ring head) head }
  consume_from c (took v head) = record c {
    ring = release c.ring head;
    consumer = waiting;
    popped = c.popped ++ v ∷ [];
  }

  unfoldable pub turn : Channel T → Turn T → Channel T
  unfolding produce_from consume_from
  turn c (produce v) = produce_from c v c.producer
  turn c consume = consume_from c c.consumer

  unfoldable pub run : Channel T → List (Turn T) → Channel T
  run c [] = c
  run c (t ∷ ts) = run (turn c t) ts

  unfoldable pub start : Ring T → Channel T
  start r = record { ring = r; producer = resting; consumer = waiting; pushed = []; popped = [] }
