-- ===== src/Spsc/Steps/History.antt =====
-- Whatever the interleaving of the two ends, the ring delivers the pushed values in order, each
-- once, out of initialised slots.
use native.Mathlib.Nat.{le_refl}
use native.Mathlib.Decide.{dec_lt}
use mathlib.Core.List.{map-append}
use zerokv.Prelude.{
  ℕ, suc, ◌+◌, ◌%◌, ◌^◌, ◌≤◌, ◌<◌, ◌≡◌, refl, sym, ap, ◌∙◌, Bool-cases, false, some, List, [], ◌∷◌,
  ◌++◌, map, length, get_elem?, take, arith, ◌==◌, inl, inr, length-append, take-suc,
  take-append_le, get_elem?_of_lt, get_elem?-append_lt, ==_iff, max,
}
use zerokv.Words.{word, next_power_of_two}
use zerokv.Spsc.{Ring, channel, is_full, read_slot, release}
use zerokv.Spsc.Window.{
  Holds, channel-Holds, is_full-old_head, Holds-write, written, Holds-publish, read_slot-oldest,
  Holds-release, lt_of_get_elem?,
}
use zerokv.Spsc.Steps.{
  Producer, resting, got_tail, got_head, wrote, Consumer, waiting, saw_head, saw_tail, took,
  Channel, Turn, produce, consume, turn, run, start, produce_from, consume_from,
}

module _ {T : Type 0} where
  -- What the locals of the producer say of the ring and of the two histories.
  abbrev pub Producing : ℕ → Ring T → List T → ℕ → Producer T → Type 0
  Producing k r pushed c resting = Unit
  Producing k r pushed c (got_tail v tail) = tail ≡ length pushed % word
  Producing k r pushed c (got_head v tail head) =
      (c₀ : ℕ) × (tail ≡ length pushed % word)
      × (head ≡ c₀ % word)
      × (c₀ ≤ c)
      × (length pushed ≤ c₀ + 2 ^ k)
  Producing k r pushed c (wrote v tail) =
      (tail ≡ length pushed % word)
      × (length pushed < c + 2 ^ k)
      × (get_elem? r.buf (length pushed % 2 ^ k) ≡ some (some v))

  -- What the locals of the consumer say.
  abbrev pub Consuming : List T → ℕ → Consumer T → Type 0
  Consuming pushed c waiting = Unit
  Consuming pushed c (saw_head head) = head ≡ c % word
  Consuming pushed c (saw_tail head tail) =
      (n₀ : ℕ) × (head ≡ c % word) × (tail ≡ n₀ % word) × (c ≤ n₀) × (n₀ ≤ length pushed)
  Consuming pushed c (took o head) =
      (x : T) × (head ≡ c % word) × (o ≡ some x) × (get_elem? pushed c ≡ some x)

  pub record Inv (k : ℕ) (ch : Channel T) : Type 0 where
    pub holds : Holds k ch.ring ch.pushed (length ch.popped)
    pub producing : Producing k ch.ring ch.pushed (length ch.popped) ch.producer
    pub consuming : Consuming ch.pushed (length ch.popped) ch.consumer
    pub prefix : ch.popped ≡ map some (take (length ch.popped) ch.pushed)

  -- The consumer's view stands when a value is added.
  Consuming-append :
      (pushed : List T) (v : T) (c : ℕ) (q : Consumer T)
      → Consuming pushed c q
      → Consuming (pushed ++ v ∷ []) c q
  Consuming-append pushed v c waiting h = tt
  Consuming-append pushed v c (saw_head head) h = h
  Consuming-append pushed v c (saw_tail head tail) (n₀, a, b, d, e) =
      (n₀, a, b, d, omega (arith, length-append pushed (v ∷ [])))
  Consuming-append pushed v c (took o head) (x, a, b, d) =
      (x, a, b, get_elem?-append_lt pushed (v ∷ []) c (lt_of_get_elem? pushed c x d) ∙ d)

  -- The producer's view stands when one more value has been popped.
  Producing-release :
      (k : ℕ) (r : Ring T) (pushed : List T) (c head : ℕ) (p : Producer T)
      → Producing k r pushed c p
      → Producing k (release r head) pushed (suc c) p
  unfolding release
  Producing-release k r pushed c head resting h = tt
  Producing-release k r pushed c head (got_tail v tail) h = h
  Producing-release k r pushed c head (got_head v tail h₀) (c₀, a, b, d, e) =
      (c₀, a, b, omega arith, e)
  Producing-release k r pushed c head (wrote v tail) (a, b, e) = (a, omega arith, e)

  module _ (k : ℕ) (ch : Channel T) (inv : Inv k ch) where
    open inv use {holds, producing, consuming, prefix}

    abbrev c : ℕ
    c = length ch.popped

    not_full :
        (c₀ : ℕ)
        → c₀ ≤ c
        → length ch.pushed ≤ c₀ + 2 ^ k
        → is_full ch.ring (length ch.pushed % word) (c₀ % word) ≡ false
        → length ch.pushed < c + 2 ^ k
    not_full c₀ old near e = ground (arith, is_full-old_head holds c₀ old near, holds.order)

    produce_from-Inv :
        (v : T) (p : Producer T) → Producing k ch.ring ch.pushed c p → Inv k (produce_from ch v p)
    unfolding produce_from
    produce_from-Inv v resting h = record {
      holds = holds;
      producing = holds.tail_at;
      consuming = consuming;
      prefix = prefix;
    }
    produce_from-Inv v (got_tail w tail) h = record {
      holds = holds;
      producing = (c, h, holds.head_at, le_refl c, holds.room);
      consuming = consuming;
      prefix = prefix;
    }
    produce_from-Inv v (got_head w tail head) (c₀, a, b, d, e) =
        elim (Bool-cases (is_full ch.ring tail head)) [
          | inl full ↦
              rw full
                (record { holds = holds; producing = tt; consuming = consuming; prefix = prefix })
          | inr space ↦
              let room : length ch.pushed < c + 2 ^ k = not_full c₀ d e (rw (a, b) at space) in
              rw (space, a)
                (record {
                  holds = Holds-write holds w room;
                  producing = (refl, room, written holds w);
                  consuming = consuming;
                  prefix = prefix;
                })
        ]
    produce_from-Inv v (wrote w tail) (a, room, stored) = record {
      holds = rw a (Holds-publish holds w room stored);
      producing = tt;
      consuming = Consuming-append ch.pushed w c ch.consumer consuming;
      prefix = prefix ∙ ap (map some) (sym (take-append_le c ch.pushed (w ∷ []) holds.order));
    }

    -- The consumer that saw two different cursors has a value to read.
    behind :
        (head tail n₀ : ℕ)
        → head ≡ c % word
        → tail ≡ n₀ % word
        → c ≤ n₀
        → n₀ ≤ length ch.pushed
        → head == tail ≡ false
        → c < length ch.pushed
    behind head tail n₀ a b d e more = elim (dec_lt c n₀) [
      | yes lt ↦ omega arith
      | no ge ↦
          let same : c ≡ n₀ = omega arith in
          cc (more, (==_iff head tail).1 (a ∙ ap (λ n. n % word) same ∙ sym b))
    ]

    consume_from-Inv : (q : Consumer T) → Consuming ch.pushed c q → Inv k (consume_from ch q)
    unfolding consume_from
    consume_from-Inv waiting h = record {
      holds = holds;
      producing = producing;
      consuming = holds.head_at;
      prefix = prefix;
    }
    consume_from-Inv (saw_head head) h = record {
      holds = holds;
      producing = producing;
      consuming = (length ch.pushed, h, holds.tail_at, holds.order, le_refl (length ch.pushed));
      prefix = prefix;
    }
    consume_from-Inv (saw_tail head tail) (n₀, a, b, d, e) = elim (Bool-cases (head == tail)) [
      | inl empty ↦
          rw empty
            (record { holds = holds; producing = producing; consuming = tt; prefix = prefix })
      | inr more ↦
          let (x, found) = get_elem?_of_lt ch.pushed c (behind head tail n₀ a b d e more) in
          rw more (record {
            holds = holds;
            producing = producing;
            consuming = (x, a, ap (read_slot ch.ring) a ∙ read_slot-oldest holds x found, found);
            prefix = prefix;
          })
    ]
    consume_from-Inv (took o head) (x, a, b, e) = record {
      holds = rw (counted, a) (Holds-release holds x e);
      producing = rw counted (Producing-release k ch.ring ch.pushed c head ch.producer producing);
      consuming = tt;
      prefix =
          rw (counted, take-suc c ch.pushed x e, map-append, b) (ap (λ l. l ++ some x ∷ []) prefix);
    }
      where
        counted : length (ch.popped ++ o ∷ []) ≡ suc c
        counted = omega (arith, length-append ch.popped (o ∷ []))

  turn-Inv : (k : ℕ) (ch : Channel T) (t : Turn T) → Inv k ch → Inv k (turn ch t)
  unfolding turn
  turn-Inv k ch (produce v) inv = produce_from-Inv k ch inv v ch.producer inv.producing
  turn-Inv k ch consume inv = consume_from-Inv k ch inv ch.consumer inv.consuming

  pub run-Inv : (k : ℕ) (ch : Channel T) (ts : List (Turn T)) → Inv k ch → Inv k (run ch ts)
  unfolding run
  run-Inv k ch [] inv = inv
  run-Inv k ch (t ∷ ts) inv = run-Inv k (turn ch t) ts (turn-Inv k ch t inv)

  pub start-Inv : {k : ℕ} {r : Ring T} → Holds k r [] 0 → Inv k (start r)
  unfolding start
  start-Inv h = record { holds = h; producing = tt; consuming = tt; prefix = refl }

  -- From a new channel, under every interleaving of the two ends, `pop` has returned exactly the
  -- first values that `push` accepted, in order, each read from a written slot, and at most
  -- `capacity` rounded up to a power of two of the accepted values are still in the ring.
  pub channel_fifo :
      (capacity : ℕ) (ts : List (Turn T))
      → capacity ≤ 2 ^ 63
      → let ch = run (start (channel capacity)) ts in
        (ch.popped ≡ map some (take (length ch.popped) ch.pushed))
        × (length ch.popped ≤ length ch.pushed)
        × (length ch.pushed ≤ length ch.popped + next_power_of_two (max capacity 2))
  channel_fifo capacity ts small =
      let (k, h, size) = channel-Holds capacity small in
      let inv = run-Inv k _ ts (start-Inv h) in
      (inv.prefix, inv.holds.order, rw size inv.holds.room)
