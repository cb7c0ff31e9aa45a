-- ===== src/Spsc/Queue.antt =====
-- One call at a time, the ring is a bounded first-in first-out queue; `drain` takes its front.
use native.Mathlib.Nat.{le_refl}
use mathlib.Core.List.{append-nil, append_assoc}
use native.Mathlib.Decide.{dec_lt}
use zerokv.Prelude.{
  ℕ, zero, suc, ◌+◌, ◌-◌, ◌%◌, ◌^◌, ◌≤◌, ◌<◌, max, ◌≡◌, refl, sym, ap, ap₂, ◌∙◌, true, false,
  Option, none, some, List, [], ◌∷◌, ◌++◌, map, length, take, drop, arith, ◌==◌, if◌then◌else◌,
  get_elem?_of_lt, length-drop, length-append, drop-cons, drop-append_le, ==_iff, ==_ne, get_elem?,
}
use zerokv.Words.{word, next_power_of_two}
use zerokv.Spsc.{Ring, Pushed, ok, err, channel, push, pop, drain, is_full}
use zerokv.Spsc.Window.{
  Holds, is_full-old_head, Holds-write, written, Holds-publish, read_slot-oldest, Holds-release,
  channel-Holds, two-pow-small, mod-ne, lt_of_get_elem?,
}

-- What a caller asks of the two ends, and what it sees.
pub data Call (T : Type 0) : Type 0 where
  put : T → Call T
  get : Call T

pub data Reply (T : Type 0) : Type 0 where
  pushed : Pushed T → Reply T
  popped : Option (Option T) → Reply T

-- The specification: a queue of at most `cap` values, oldest first.
pub fifo : {T : Type 0} → ℕ → List T → List (Call T) → List (Reply T)
fifo cap q [] = []
fifo cap q (put v ∷ calls) =
    let full = fifo cap q calls in
    let room = fifo cap (q ++ v ∷ []) calls in
    if length q == cap then pushed (err v) ∷ full else pushed ok ∷ room
fifo cap [] (get ∷ calls) = popped none ∷ fifo cap [] calls
fifo cap (x ∷ q) (get ∷ calls) = popped (some (some x)) ∷ fifo cap q calls

unfoldable pub serve : {T : Type 0} → Ring T → List (Call T) → List (Reply T)
serve r [] = []
serve r (put v ∷ calls) = let (result, r') = push r v in pushed result ∷ serve r' calls
serve r (get ∷ calls) = let (result, r') = pop r in popped result ∷ serve r' calls

module _ {T : Type 0} {k c : ℕ} {r : Ring T} {sent : List T} (h : Holds k r sent c) where
  abbrev queue : List T
  queue = drop c sent

  length-queue : length queue ≡ length sent - c
  length-queue = length-drop c sent

  full_test : is_full r r.tail r.head ≡ (length queue == 2 ^ k)
  full_test =
      ap₂ (is_full r) h.tail_at h.head_at
      ∙ is_full-old_head h c (le_refl c) h.room
      ∙ ap (λ n. n == 2 ^ k) (sym length-queue)

  empty_test : (length queue ≡ 0) → r.head == r.tail ≡ true
  empty_test e =
      (==_iff r.head r.tail).1
        (h.head_at ∙ ap (λ n. n % word) (omega (arith, length-queue, h.order)) ∙ sym h.tail_at)

  push-full : (v : T) → length queue ≡ 2 ^ k → push r v ≡ (err v, r)
  unfolding push
  push-full v e = rw (full_test, (==_iff (length queue) (2 ^ k)).1 e)

  push-room :
      (v : T) → length queue < 2 ^ k → ((push r v).0 ≡ ok) × Holds k (push r v).1 (sent ++ v ∷ []) c
  unfolding push
  push-room v lt =
      rw (full_test, ==_ne (length queue) (2 ^ k) (omega arith), h.tail_at)
        (refl, Holds-publish (Holds-write h v space) v space (written h v))
    where
      space : length sent < c + 2 ^ k
      space = omega (arith, length-queue)

  pop-empty : length queue ≡ 0 → pop r ≡ (none, r)
  unfolding pop
  pop-empty e = rw (empty_test e)

  pop-oldest :
      (x : T)
      → get_elem? sent c ≡ some x
      → ((pop r).0 ≡ some (some x)) × Holds k (pop r).1 sent (suc c)
  unfolding pop
  pop-oldest x e = rw (differ, h.head_at) (ap some (read_slot-oldest h x e), Holds-release h x e)
    where
      differ : r.head == r.tail ≡ false
      differ =
          rw (h.head_at, h.tail_at)
            (==_ne _ _ (
              mod-ne word c (length sent) (lt_of_get_elem? sent c x e)
                (omega (arith, h.room, two-pow-small k h.width))))

pub empty_of_length {ℓ} : {A : Type ℓ} (xs : List A) → length xs ≡ 0 → xs ≡ []
empty_of_length [] e = refl
empty_of_length (x ∷ xs) e = absurd (omega arith)

-- From a ring that holds the values `drop c sent`, every sequence of calls gets the replies of the
-- queue.
serve-eq-fifo :
    {T : Type 0} {k : ℕ} (calls : List (Call T)) (r : Ring T) (sent : List T) (c : ℕ)
    → Holds k r sent c
    → serve r calls ≡ fifo (2 ^ k) (drop c sent) calls
unfolding serve fifo
serve-eq-fifo [] r sent c h = refl
serve-eq-fifo {k = k} (put v ∷ calls) r sent c h = elim (dec_lt (length (drop c sent)) (2 ^ k)) [
  | yes lt ↦
      let (answer, kept) = push-room h v lt in
      rw (
        ==_ne (length (drop c sent)) (2 ^ k) (omega arith),
        answer,
        serve-eq-fifo calls (push r v).1 (sent ++ v ∷ []) c kept,
        drop-append_le c sent (v ∷ []) h.order,
      )
  | no ge ↦
      let full : length (drop c sent) ≡ 2 ^ k = omega (arith, length-queue h, h.room) in
      rw (
        push-full h v full,
        (==_iff (length (drop c sent)) (2 ^ k)).1 full,
        serve-eq-fifo calls r sent c h,
      )
]
serve-eq-fifo (get ∷ calls) r sent c h = elim (dec_lt c (length sent)) [
  | yes lt ↦
      let (x, found) = get_elem?_of_lt sent c lt in
      let (answer, kept) = pop-oldest h x found in
      rw (drop-cons c sent x found, answer, serve-eq-fifo calls (pop r).1 sent (suc c) kept)
  | no ge ↦
      let none_left : length (drop c sent) ≡ 0 = omega (arith, length-queue h) in
      rw (
        pop-empty h none_left,
        serve-eq-fifo calls r sent c h,
        empty_of_length (drop c sent) none_left,
      )
]

-- A new channel answers every sequence of calls as a queue bounded by its capacity, rounded up to a
-- power of two that is at least 2: `push` fails exactly when the queue is full and then returns its
-- argument, and `pop` fails exactly when it is empty.
pub channel-refines_queue :
    {T : Type 0} (capacity : ℕ) (calls : List (Call T))
    → capacity ≤ 2 ^ 63
    → serve (channel capacity) calls ≡ fifo (next_power_of_two (max capacity 2)) [] calls
channel-refines_queue capacity calls small =
    let (k, h, size) = channel-Holds capacity small in
    rw size (serve-eq-fifo calls (channel capacity) [] 0 h)

-- `drain` hands out the oldest values, as many as `max` allows, and leaves the others.
drain-Holds :
    {T : Type 0} {k : ℕ} (most : ℕ) (r : Ring T) (sent : List T) (c : ℕ)
    → Holds k r sent c
    → (c' : ℕ) × ((drain r most).0 ≡ map some (take most (drop c sent)))
      × (drop c' sent ≡ drop most (drop c sent))
      × Holds k (drain r most).1 sent c'
unfolding drain
drain-Holds zero r sent c h = (c, refl, refl, h)
drain-Holds (suc most) r sent c h = elim (dec_lt c (length sent)) [
  | yes lt ↦
      let (x, found) = get_elem?_of_lt sent c lt in
      let (answer, kept) = pop-oldest h x found in
      let (c', items, left, rest) = drain-Holds most (pop r).1 sent (suc c) kept in
      rw (answer, drain, drop-cons c sent x found) (c', ap (λ l. some x ∷ l) items, left, rest)
  | no ge ↦
      let none_left : length (drop c sent) ≡ 0 = omega (arith, length-queue h) in
      let nil = empty_of_length (drop c sent) none_left in
      rw (pop-empty h none_left, drain) (c, rw nil, rw nil, h)
]

pub push_all : {T : Type 0} → Ring T → List T → Ring T
push_all r [] = r
push_all r (v ∷ vs) = push_all (push r v).1 vs

push_all-Holds :
    {T : Type 0} {k : ℕ} (vs : List T) (r : Ring T) (sent : List T) (c : ℕ)
    → Holds k r sent c
    → length sent + length vs ≤ c + 2 ^ k
    → Holds k (push_all r vs) (sent ++ vs) c
unfolding push_all
push_all-Holds [] r sent c h room = rw append-nil h
push_all-Holds (v ∷ vs) r sent c h room = rw (← append_assoc sent (v ∷ []) vs) (
    push_all-Holds vs (push r v).1 (sent ++ v ∷ []) c
      (push-room h v (omega (arith, length-queue h, h.order))).1
      (omega (arith, length-append sent (v ∷ []))))

-- Values that fit the capacity and are pushed into a new channel come out of one `drain` in the
-- order of the pushes, as many as `max` allows.
pub drain-push_all :
    {T : Type 0} (capacity max_items : ℕ) (vs : List T)
    → capacity ≤ 2 ^ 63
    → length vs ≤ next_power_of_two (max capacity 2)
    → (drain (push_all (channel capacity) vs) max_items).0 ≡ map some (take max_items vs)
drain-push_all capacity max_items vs small fits =
    let (k, h, size) = channel-Holds capacity small in
    let room : length vs ≤ 2 ^ k = rw size at fits in
    let sent = push_all-Holds vs (channel capacity) [] 0 h (omega arith) in
    (drain-Holds max_items (push_all (channel capacity) vs) vs 0 sent).1
