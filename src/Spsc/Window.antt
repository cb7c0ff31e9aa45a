-- ===== src/Spsc/Window.antt =====
-- The cursors as unbounded counters: which slots hold which values, and what the two tests mean.
use native.Mathlib.Nat.{mod-lt, one-le-pow, pow-le-pow_right, div-add-mod, le_refl}
use native.Mathlib.Decide.{dec_lt}
use zerokv.Prelude.{
  ℕ, suc, ◌+◌, ◌-◌, ◌*◌, ◌/◌, ◌%◌, ◌^◌, ◌≤◌, ◌<◌, bit_and, max, ◌≡◌, ◌≢◌, refl, sym, ap, ◌∙◌, none,
  some, List, [], ◌∷◌, ◌++◌, length, get_elem?, arith, ◌==◌, length-append, length-set,
  get_elem?-set_self, get_elem?-set_ne, get_elem?-append_end, get_elem?-append_lt, get_elem?_of_le,
  length-replicate,
}
use zerokv.Words.{word, wrapping_add, wrapping_sub, next_power_of_two}
use zerokv.Words.Mask.{bit_and_wrapped, next_power_of_two-IsRounded, log-lt-64}
use zerokv.Spsc.{Ring, channel, is_full, write_slot, publish, read_slot, release}

-- The difference of two wrapped counters that are less than a word apart.
pub wrapping_sub_wrapped :
    (n c : ℕ) → c ≤ n → n < c + word → wrapping_sub (n % word) (c % word) ≡ n - c
wrapping_sub_wrapped n c h w = omega arith

pub wrapping_add_wrapped : (n : ℕ) → wrapping_add (n % word) 1 ≡ suc n % word
wrapping_add_wrapped n = omega arith

-- Two counters less than `m` apart have different remainders.
pub mod-ne : (m i n : ℕ) → i < n → n < i + m → i % m ≢ n % m
mod-ne m i n lt near e = elim (dec_lt (i / m) (n / m)) [
  | yes p ↦ absurd (omega (arith, div-add-mod i m, div-add-mod n m, rounds_apart (i / m) (n / m) p))
  | no p ↦
      absurd
        (omega (arith, div-add-mod i m, div-add-mod n m, rounds_mono (n / m) (i / m) (omega arith)))
]
  where
    rounds_apart : (a b : ℕ) → a < b → m * a + m ≤ m * b
    rounds_apart a b h = grind arith

    rounds_mono : (a b : ℕ) → a ≤ b → m * a ≤ m * b
    rounds_mono a b h = grind arith

-- A ring of `2 ^ k` slots after `c` of the values `pushed` have been popped: the cursors are the two
-- counts, modulo the word, and each value that is still queued lies in its slot.
pub record Holds {ℓ} {T : Type ℓ} (k : ℕ) (r : Ring T) (pushed : List T) (c : ℕ) : Type ℓ where
  pub width : k < 64
  pub slots : length r.buf ≡ 2 ^ k
  pub masked : r.mask ≡ 2 ^ k - 1
  pub tail_at : r.tail ≡ length pushed % word
  pub head_at : r.head ≡ c % word
  pub order : c ≤ length pushed
  pub room : length pushed ≤ c + 2 ^ k
  pub queued :
      (i : ℕ) (x : T)
      → c ≤ i
      → get_elem? pushed i ≡ some x
      → get_elem? r.buf (i % 2 ^ k) ≡ some (some x)

pub two-pow-pos : (k : ℕ) → 0 < 2 ^ k
two-pow-pos k = one-le-pow k 2 (omega arith)

pub two-pow-small : (k : ℕ) → k < 64 → 2 ^ k < word
two-pow-small k h =
    omega (arith, pow-le-pow_right {n = 2} (omega arith) {i = k} {j = 63} (omega arith))

pub lt_of_get_elem? {ℓ} :
    {A : Type ℓ} (xs : List A) (i : ℕ) (x : A) → get_elem? xs i ≡ some x → i < length xs
lt_of_get_elem? xs i x e = elim (dec_lt i (length xs)) [
  | yes p ↦ p
  | no p ↦ cc (get_elem?_of_le xs i (omega arith))
]

module _ {ℓ} {T : Type ℓ} {k c : ℕ} {r : Ring T} {pushed : List T} (h : Holds k r pushed c) where
  -- The producer's test on a head that it loaded when `c₀` values had been popped.
  pub is_full-old_head :
      (c₀ : ℕ)
      → c₀ ≤ c
      → length pushed ≤ c₀ + 2 ^ k
      → is_full r (length pushed % word) (c₀ % word) ≡ (length pushed - c₀ == 2 ^ k)
  unfolding is_full
  is_full-old_head c₀ old near = rw (
    h.slots,
    wrapping_sub_wrapped (length pushed) c₀ (omega (arith, h.order))
        (omega (arith, two-pow-small k h.width)),
  )

  -- A slot that `push` writes holds no queued value.
  pub Holds-write :
      (v : T) → length pushed < c + 2 ^ k → Holds k (write_slot r (length pushed % word) v) pushed c
  unfolding write_slot
  Holds-write v space = record {
    width = h.width;
    slots = length-set r.buf _ (some v) ∙ h.slots;
    masked = h.masked;
    tail_at = h.tail_at;
    head_at = h.head_at;
    order = h.order;
    room = h.room;
    queued = λ i x le e.
        get_elem?-set_ne r.buf _ (i % 2 ^ k) (some v) (λ same. apart i x le e (sym same ∙ index))
        ∙ h.queued i x le e;
  }
    where
      index : bit_and (length pushed % word) r.mask ≡ length pushed % 2 ^ k
      index = rw (h.masked, bit_and_wrapped k (length pushed) (omega (arith, h.width)))

      apart :
          (i : ℕ) (x : T) → c ≤ i → get_elem? pushed i ≡ some x → i % 2 ^ k ≢ length pushed % 2 ^ k
      apart i x le e = mod-ne (2 ^ k) i (length pushed) (lt_of_get_elem? pushed i x e) (omega arith)

  pub written :
      (v : T)
      → get_elem? (write_slot r (length pushed % word) v).buf (length pushed % 2 ^ k)
        ≡ some (some v)
  unfolding write_slot
  written v =
      rw (h.masked, bit_and_wrapped k (length pushed) (omega (arith, h.width)))
        (get_elem?-set_self r.buf (length pushed % 2 ^ k) (some v)
          (omega (arith, h.slots, mod-lt (length pushed) (two-pow-pos k))))

  -- Storing the tail makes the written slot the newest queued value.
  pub Holds-publish :
      (v : T)
      → length pushed < c + 2 ^ k
      → get_elem? r.buf (length pushed % 2 ^ k) ≡ some (some v)
      → Holds k (publish r (length pushed % word)) (pushed ++ v ∷ []) c
  unfolding publish
  Holds-publish v space stored = record {
    width = h.width;
    slots = h.slots;
    masked = h.masked;
    tail_at = wrapping_add_wrapped (length pushed) ∙ ap (λ n. n % word) (omega (arith, grown));
    head_at = h.head_at;
    order = omega (arith, grown, h.order);
    room = omega (arith, grown);
    queued = slot;
  }
    where
      grown : length (pushed ++ v ∷ []) ≡ suc (length pushed)
      grown = omega (arith, length-append pushed (v ∷ []))

      slot :
          (i : ℕ) (x : T)
          → c ≤ i
          → get_elem? (pushed ++ v ∷ []) i ≡ some x
          → get_elem? r.buf (i % 2 ^ k) ≡ some (some x)
      slot i x le e = elim (dec_lt i (length pushed)) [
        | yes old ↦ h.queued i x le (sym (get_elem?-append_lt pushed (v ∷ []) i old) ∙ e)
        | no end ↦
            let last : i ≡ length pushed =
              omega (arith, grown, lt_of_get_elem? (pushed ++ v ∷ []) i x e) in
            rw last (cc (stored, e, get_elem?-append_end pushed v i last))
      ]

  -- The consumer reads the oldest queued value.
  pub read_slot-oldest : (x : T) → get_elem? pushed c ≡ some x → read_slot r (c % word) ≡ some x
  unfolding read_slot
  read_slot-oldest x e = ground (arith, index, h.queued c x (le_refl c) e)
    where
      index : bit_and (c % word) r.mask ≡ c % 2 ^ k
      index = rw (h.masked, bit_and_wrapped k c (omega (arith, h.width)))

  pub Holds-release :
      (x : T) → get_elem? pushed c ≡ some x → Holds k (release r (c % word)) pushed (suc c)
  unfolding release
  Holds-release x e = record {
    width = h.width;
    slots = h.slots;
    masked = h.masked;
    tail_at = h.tail_at;
    head_at = wrapping_add_wrapped c;
    order = omega (arith, lt_of_get_elem? pushed c x e);
    room = omega (arith, h.room);
    queued = λ i y le. h.queued i y (omega arith);
  }

-- A new channel holds nothing.
pub channel-Holds {ℓ} :
    {T : Type ℓ} (capacity : ℕ)
    → capacity ≤ 2 ^ 63
    → (k : ℕ) × Holds k (channel {T = T} capacity) [] 0
      × (next_power_of_two (max capacity 2) ≡ 2 ^ k)
unfolding channel
channel-Holds capacity small =
    let rounded = next_power_of_two-IsRounded (max capacity 2) (omega arith) in
    (
      rounded.log,
      record {
        width = log-lt-64 rounded (omega arith);
        slots = length-replicate _ none ∙ rounded.power;
        masked = ap (λ n. n - 1) rounded.power;
        tail_at = refl;
        head_at = refl;
        order = omega arith;
        room = omega arith;
        queued = λ i x le e. cc;
      },
      rounded.power,
    )
