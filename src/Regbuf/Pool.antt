-- ===== src/Regbuf/Pool.antt =====
-- The buffers that are out at the same time, after any acquires and drops.
use native.Mathlib.Nat.{mul-le-mul_right, suc-mul}
use native.Mathlib.Decide.{dec_lt}
use mathlib.Core.Option.{some-injective}
use zerokv.Prelude.{
  ℕ, zero, suc, ◌+◌, ◌*◌, ◌≤◌, ◌<◌, ◌≡◌, ◌≢◌, ◌⊎◌, ◌↔◌, inl, inr, refl, sym, ap, ap₂, ◌∙◌, subst,
  Option, none, some, List, [], ◌∷◌, ◌++◌, length, length-append, get_elem?, arith, ltb, ◌==◌,
  if◌then◌else◌, All, Option-cases,
}
use zerokv.Regbuf.{
  RegisteredBuffers, FixedBuf, range, register, pop, acquire, release, drop_buf, available,
}

-- The pool and the buffers that are out, the newest first.
pub record World : Type 0 where
  pub pool : RegisteredBuffers
  pub held : List FixedBuf

-- A caller acquires a buffer, or drops the `n`-th of those that are out.
pub data Op : Type 0 where
  take_one : Op
  give_back : ℕ → Op

abbrev pub without {ℓ} : {A : Type ℓ} → List A → ℕ → List A
without [] n = []
without (x ∷ xs) zero = xs
without (x ∷ xs) (suc n) = x ∷ without xs n

pub keep : List FixedBuf → Option FixedBuf × RegisteredBuffers → World
keep held (none, pool) = record { pool = pool; held = held }
keep held (some buf, pool) = record { pool = pool; held = buf ∷ held }

pub give : World → ℕ → Option FixedBuf → World
give w n none = w
give w n (some buf) = record { pool = drop_buf w.pool buf; held = without w.held n }

unfoldable pub step : World → Op → World
unfolding keep give
step w take_one = keep w.held (acquire w.pool)
step w (give_back n) = give w n (get_elem? w.held n)

unfoldable pub run : World → List Op → World
run w [] = w
run w (op ∷ ops) = run (step w op) ops

abbrev pub start : RegisteredBuffers → World
start pool = record { pool = pool; held = [] }

-- How often an index occurs.
abbrev same : ℕ → ℕ → ℕ
same i x = if i == x then 1 else 0

abbrev occ : ℕ → List ℕ → ℕ
occ i [] = 0
occ i (x ∷ xs) = same i x + occ i xs

abbrev indices : List FixedBuf → List ℕ
indices [] = []
indices (b ∷ bs) = b.index ∷ indices bs

occ-append : (i : ℕ) (xs ys : List ℕ) → occ i (xs ++ ys) ≡ occ i xs + occ i ys
occ-append i [] ys = omega arith
occ-append i (x ∷ xs) ys = omega (arith, occ-append i xs ys)

occ-range : (i n : ℕ) → occ i (range n) ≡ (if ltb i n then 1 else 0)
occ-range i zero = ground arith
occ-range i (suc n) = ground (arith, occ-append i (range n) (n ∷ []), occ-range i n)

occ-get : (i k : ℕ) (xs : List ℕ) → get_elem? xs k ≡ some i → 1 ≤ occ i xs
occ-get i k [] e = cc
occ-get i zero (x ∷ xs) e = ground arith
occ-get i (suc k) (x ∷ xs) e = omega (arith, occ-get i k xs e)

-- An index at two places occurs twice.
occ-twice :
    (i j k : ℕ) (xs : List ℕ)
    → get_elem? xs j ≡ some i
    → get_elem? xs k ≡ some i
    → j < k
    → 2 ≤ occ i xs
occ-twice i j k [] e f lt = cc
occ-twice i zero zero (x ∷ xs) e f lt = absurd (omega arith)
occ-twice i zero (suc k) (x ∷ xs) e f lt = ground (arith, occ-get i k xs f)
occ-twice i (suc j) zero (x ∷ xs) e f lt = absurd (omega arith)
occ-twice i (suc j) (suc k) (x ∷ xs) e f lt = omega (arith, occ-twice i j k xs e f (omega arith))

get-indices :
    (bs : List FixedBuf) (k : ℕ) (b : FixedBuf)
    → get_elem? bs k ≡ some b
    → get_elem? (indices bs) k ≡ some b.index
get-indices [] k b e = cc
get-indices (c ∷ bs) zero b e = ap (λ (o : FixedBuf). some o.index) (some-injective _ _ e)
get-indices (c ∷ bs) (suc k) b e = get-indices bs k b e

occ-without :
    (i k : ℕ) (bs : List FixedBuf) (b : FixedBuf)
    → get_elem? bs k ≡ some b
    → occ i (indices bs) ≡ same i b.index + occ i (indices (without bs k))
occ-without i k [] b e = cc
occ-without i zero (c ∷ bs) b e =
    ap (λ (o : FixedBuf). same i o.index + occ i (indices bs)) (some-injective _ _ e)
occ-without i (suc k) (c ∷ bs) b e = omega (arith, occ-without i k bs b e)

length-without {ℓ} :
    {A : Type ℓ} (xs : List A) (k : ℕ) (x : A)
    → get_elem? xs k ≡ some x
    → length xs ≡ suc (length (without xs k))
length-without [] k x e = cc
length-without (y ∷ xs) zero x e = refl
length-without (y ∷ xs) (suc k) x e = ap suc (length-without xs k x e)

All-without {ℓ κ} :
    {A : Type ℓ} (P : A → Type κ) (xs : List A) (k : ℕ) → All P xs → All P (without xs k)
All-without P [] k h = h
All-without P (x ∷ xs) zero h = h.1
All-without P (x ∷ xs) (suc k) h = (h.0, All-without P xs k h.1)

All-get {ℓ κ} :
    {A : Type ℓ} (P : A → Type κ) (xs : List A) (k : ℕ) (x : A)
    → All P xs
    → get_elem? xs k ≡ some x
    → P x
All-get P [] k x h e = cc
All-get P (y ∷ xs) zero x h e = subst P (some-injective _ _ e) h.0
All-get P (y ∷ xs) (suc k) x h e = All-get P xs k x h.1 e

-- Both ways of `Vec::pop`.
pop-cases :
    (xs : List ℕ)
    → ((xs ≡ []) × (pop xs ≡ none))
      ⊎ ((last : ℕ) × (others : List ℕ) × (pop xs ≡ some (last, others))
          × (xs ≡ others ++ last ∷ []))
unfolding pop
pop-cases [] = inl (refl, refl)
pop-cases (x ∷ []) = inr (x, [], refl, refl)
pop-cases (x ∷ y ∷ xs) = elim (pop-cases (y ∷ xs)) [
  | inl h ↦ cc
  | inr h ↦ inr (h.0, x ∷ h.1, rw h.2 refl, ap (λ l. x ∷ l) h.3)
]

abbrev Placed : ℕ → ℕ → FixedBuf → Type 0
Placed base size b = (b.ptr ≡ base + b.index * size) × (b.len ≡ size)

-- Each index below `count` is free or out, once.
record Inv (base count size : ℕ) (w : World) : Type 0 where
  based : w.pool.base ≡ base
  sized : w.pool.buf_len ≡ size
  once : (i : ℕ) → occ i w.pool.free + occ i (indices w.held) ≡ (if ltb i count then 1 else 0)
  total : length w.pool.free + length w.held ≡ count
  placed : All (Placed base size) w.held

acquire-pop :
    (pool : RegisteredBuffers) (last : ℕ) (others : List ℕ)
    → pop pool.free ≡ some (last, others)
    → acquire pool ≡ (
      some (record { index = last; ptr = pool.base + last * pool.buf_len; len = pool.buf_len }),
      record pool { free = others },
    )
unfolding acquire
acquire-pop pool last others e = rw (acquire, e) refl

acquire_empty : (pool : RegisteredBuffers) → pop pool.free ≡ none → acquire pool ≡ (none, pool)
unfolding acquire
acquire_empty pool e = rw (acquire, e) refl

module _ {base count size : ℕ} {w : World} (inv : Inv base count size w) where
  take_one-Inv : Inv base count size (step w take_one)
  unfolding step keep
  take_one-Inv = elim (pop-cases w.pool.free) [
    | inl h ↦ rw (acquire_empty w.pool h.1) inv
    | inr (last, others, popped, split) ↦ rw (acquire-pop w.pool last others popped) (record {
      based = inv.based;
      sized = inv.sized;
      once = λ i. omega (arith, inv.once i, ap (occ i) split, occ-append i others (last ∷ []));
      total = omega (arith, inv.total, ap length split, length-append others (last ∷ []));
      placed = ((ap₂ (λ (x y : ℕ). x + last * y) inv.based inv.sized, inv.sized), inv.placed);
    })
  ]

  give_back-Inv : (n : ℕ) → Inv base count size (step w (give_back n))
  unfolding step give drop_buf release
  give_back-Inv n = elim (Option-cases (get_elem? w.held n)) [
    | inl e ↦ rw e inv
    | inr (b, e) ↦ rw e (record {
      based = inv.based;
      sized = inv.sized;
      once = λ i.
          omega (
            arith,
            inv.once i,
            occ-without i n w.held b e,
            occ-append i w.pool.free (b.index ∷ []),
          );
      total =
          omega (
            arith,
            inv.total,
            length-without w.held n b e,
            length-append w.pool.free (b.index ∷ []),
          );
      placed = All-without (Placed base size) w.held n inv.placed;
    })
  ]

run-Inv :
    {base count size : ℕ} (ops : List Op) (w : World)
    → Inv base count size w
    → Inv base count size (run w ops)
unfolding run
run-Inv [] w h = h
run-Inv (take_one ∷ ops) w h = run-Inv ops (step w take_one) (take_one-Inv h)
run-Inv (give_back n ∷ ops) w h = run-Inv ops (step w (give_back n)) (give_back-Inv h n)

length-range : (n : ℕ) → length (range n) ≡ n
length-range zero = refl
length-range (suc n) = omega (arith, length-append (range n) (n ∷ []), length-range n)

start-Inv :
    (base count len : ℕ) {pool : RegisteredBuffers}
    → register base count len ≡ some pool
    → Inv base count pool.buf_len (start pool)
unfolding register
start-Inv base count len {pool} e = record {
  based = fields.0;
  sized = refl;
  once = λ i. omega (arith, ap (occ i) fields.1, occ-range i count);
  total = omega (arith, ap length fields.1, length-range count);
  placed = tt;
}
  where
    fields : (pool.base ≡ base) × (pool.free ≡ range count)
    fields = ground (arith, e)

-- Equal distances between multiples.
below : (base size i j : ℕ) → i < j → base + i * size + size ≤ base + j * size
below base size i j lt =
    omega (arith, mul-le-mul_right {m = suc i} {n = j} size (omega arith), suc-mul i size)

lt_trichotomy : (i j : ℕ) → (i < j) ⊎ ((i ≡ j) ⊎ (j < i))
lt_trichotomy i j = elim (dec_lt i j) [
  | yes p ↦ inl p
  | no p ↦ inr (elim (dec_lt j i) [ yes q ↦ inr q | no q ↦ inl (omega arith) ])
]

module _ {base count size : ℕ} {w : World} (inv : Inv base count size w) where
  index_below : (k : ℕ) (b : FixedBuf) → get_elem? w.held k ≡ some b → b.index < count
  index_below k b e =
      ground
        (arith, inv.once b.index, occ-get b.index k (indices w.held) (get-indices w.held k b e))

  distinct :
      (j k : ℕ) (b c : FixedBuf)
      → get_elem? w.held j ≡ some b
      → get_elem? w.held k ≡ some c
      → j < k
      → b.index ≢ c.index
  distinct j k b c e f lt eq = ground (
    arith,
    inv.once b.index,
    occ-twice b.index j k (indices w.held) (get-indices w.held j b e)
        (get-indices w.held k c f ∙ ap some (sym eq)) lt,
  )

refused :
    (w : World) (count : ℕ)
    → length w.pool.free + length w.held ≡ count
    → (acquire w.pool).0 ≡ none ↔ length w.held ≡ count
refused w count total = elim (pop-cases w.pool.free) [
  | inl h ↦ (
    λ _. omega (arith, total, ap length h.0),
    λ _. ap (λ (r : Option FixedBuf × RegisteredBuffers). r.0) (acquire_empty w.pool h.1),
  )
  | inr (last, others, popped, split) ↦ (
    λ e. absurd (
        some-none (
          sym (
            ap (λ (r : Option FixedBuf × RegisteredBuffers). r.0)
              (acquire-pop w.pool last others popped))
          ∙ e)),
    λ e. absurd (omega (arith, total, e, ap length split, length-append others (last ∷ []))),
  )
]
  where
    some-none : {b : FixedBuf} → some b ≢ none
    some-none e = cc

-- After any acquires and drops on a registered pool, the buffers of two handles that are out at
-- the same time do not overlap, and each lies in the slab.
pub held_disjoint :
    (base count len : ℕ) (ops : List Op) (i j : ℕ) (b c : FixedBuf) {pool : RegisteredBuffers}
    → register base count len ≡ some pool
    → get_elem? (run (start pool) ops).held i ≡ some b
    → get_elem? (run (start pool) ops).held j ≡ some c
    → i < j
    → ((b.ptr + b.len ≤ c.ptr) ⊎ (c.ptr + c.len ≤ b.ptr))
      × (base ≤ b.ptr)
      × (b.ptr + b.len ≤ base + count * pool.buf_len)
held_disjoint base count len ops i j b c {pool} e at_i at_j lt =
    let inv = run-Inv ops (start pool) (start-Inv base count len e) in
    let held = (run (start pool) ops).held in
    let at_b = All-get (Placed base pool.buf_len) held i b inv.placed at_i in
    let at_c = All-get (Placed base pool.buf_len) held j c inv.placed at_j in
    let low : b.index < count = index_below inv i b at_i in
    (
      elim (lt_trichotomy b.index c.index) [
        | inl lo ↦
            inl (omega (arith, at_b.0, at_b.1, at_c.0, below base pool.buf_len b.index c.index lo))
        | inr (inl eq) ↦ absurd (distinct inv i j b c at_i at_j lt eq)
        | inr (inr hi) ↦
            inr (omega (arith, at_c.1, at_b.0, at_c.0, below base pool.buf_len c.index b.index hi))
      ],
      omega (arith, at_b.0),
      omega (arith, at_b.0, at_b.1, below base pool.buf_len b.index count low),
    )

-- After any acquires and drops on a registered pool, a buffer is refused exactly when `count`
-- buffers are out, and `available` says how many are left.
pub acquire-eq_none :
    (base count len : ℕ) (ops : List Op) {pool : RegisteredBuffers}
    → register base count len ≡ some pool
    → ((acquire (run (start pool) ops).pool).0 ≡ none ↔ length (run (start pool) ops).held ≡ count)
      × (available (run (start pool) ops).pool + length (run (start pool) ops).held ≡ count)
unfolding acquire available
acquire-eq_none base count len ops {pool} e =
    let inv = run-Inv ops (start pool) (start-Inv base count len e) in
    (refused (run (start pool) ops) count inv.total, inv.total)
