-- ===== src/Arena/Kv/Puts.antt =====
-- What one `put` makes of the store, on each of its three ways.
use mathlib.Core.List.{append-nil}
use zerokv.Prelude.{
  ℕ, ◌+◌, ◌-◌, ltb, lt→ltb, ◌≤◌, ◌<◌, ◌^◌, ◌≡◌, inl, inr, refl, ap, ap₂, ◌∙◌, true, false, Option,
  none, some, List, [], ◌∷◌, ◌++◌, length, arith, if◌then◌else◌,
}
use zerokv.Arena.{Arena, push_bytes}
use zerokv.Arena.Bounds.{IsPlaced}
use zerokv.Arena.Pushes.{Pushed, push_bytes-Pushed}
use zerokv.Arena.Kv.{insert_key, insert_value, ArenaKv, put}
use zerokv.Arena.Kv.Entries.{IsEntry, Entries, IsUsed-later, Entries-later, Entries-append}

-- A store between two calls.
pub record IsValid (kv : ArenaKv) (kvs : List (List ℕ × List ℕ)) : Type 0 where
  pub place : IsPlaced kv.arena
  pub holds : Entries kv.arena kv.entries kvs

-- The puts that an arena with `free` bytes takes. A key stays in the arena if its value does not
-- fit.
unfoldable pub admitted : ℕ → List (List ℕ × List ℕ) → List (List ℕ × List ℕ)
admitted free [] = []
admitted free ((key, val) ∷ kvs) =
    let refused = admitted free kvs in
    let half = admitted (free - length key) kvs in
    let taken = (key, val) ∷ admitted (free - length key - length val) kvs in
    if ltb free (length key)
    then refused
    else if ltb (free - length key) (length val)
    then half
    else taken

unfoldable pub put_all : ArenaKv → List (List ℕ × List ℕ) → ArenaKv
put_all kv [] = kv
put_all kv ((key, val) ∷ kvs) = put_all (put kv key val).1 kvs

abbrev pub AreSmall : List (List ℕ × List ℕ) → Type 0
AreSmall [] = Unit
AreSmall ((key, val) ∷ kvs) = (length key < 2 ^ 63) × (length val < 2 ^ 63) × AreSmall kvs

insert_key-none :
    (kv : ArenaKv) (val : List ℕ) (r : Option (ℕ × ℕ) × Arena)
    → r.0 ≡ none
    → insert_key kv val r ≡ (false, record kv { arena = r.1 })
unfolding insert_key
insert_key-none kv val (none, a) e = refl
insert_key-none kv val (some p, a) e = cc

insert_key-some :
    (kv : ArenaKv) (val : List ℕ) (p n : ℕ) (r : Option (ℕ × ℕ) × Arena)
    → r.0 ≡ some (p, n)
    → insert_key kv val r ≡ insert_value kv p n (push_bytes r.1 val)
unfolding insert_key
insert_key-some kv val p n (none, a) e = cc
insert_key-some kv val p n (some (q, m), a) e =
    ap₂ (λ (x y : ℕ). insert_value kv x y (push_bytes a val)) (ground (arith, e))
      (ground (arith, e))

insert_value-none :
    (kv : ArenaKv) (k n : ℕ) (r : Option (ℕ × ℕ) × Arena)
    → r.0 ≡ none
    → insert_value kv k n r ≡ (false, record kv { arena = r.1 })
unfolding insert_value
insert_value-none kv k n (none, a) e = refl
insert_value-none kv k n (some p, a) e = cc

insert_value-some :
    (kv : ArenaKv) (k n p m : ℕ) (r : Option (ℕ × ℕ) × Arena)
    → r.0 ≡ some (p, m)
    → insert_value kv k n r ≡ (
      true,
      record {
        arena = r.1;
        entries = kv.entries ++ record { key_at = k; key_len = n; val_at = p; val_len = m } ∷ [];
      },
    )
unfolding insert_value
insert_value-some kv k n p m (none, a) e = cc
insert_value-some kv k n p m (some (q, l), a) e = ground (arith, e)

not_ltb : (a b : ℕ) → b ≤ a → ltb a b ≡ false
not_ltb a b h = ground arith

abbrev pub free : ArenaKv → ℕ
free kv = kv.arena.cap - kv.arena.head

-- What a `put` makes of the store, and of the puts that an arena takes.
pub record Put (kv : ArenaKv) (kvs : List (List ℕ × List ℕ)) (key val : List ℕ) (kv' : ArenaKv)
    : Type 0 where
  pub fresh : List (List ℕ × List ℕ)
  pub valid : IsValid kv' (kvs ++ fresh)
  pub taken :
      (ops : List (List ℕ × List ℕ))
      → admitted (free kv) ((key, val) ∷ ops) ≡ fresh ++ admitted (free kv') ops

module _ (kv : ArenaKv) (kvs : List (List ℕ × List ℕ)) (key val : List ℕ) (h : IsValid kv kvs)
    (small_key : length key < 2 ^ 63) (small_val : length val < 2 ^ 63) where
  first : Pushed kv.arena key (push_bytes kv.arena key).0 (push_bytes kv.arena key).1
  first = push_bytes-Pushed kv.arena key h.place small_key

  abbrev mid : Arena
  mid = (push_bytes kv.arena key).1

  second : Pushed mid val (push_bytes mid val).0 (push_bytes mid val).1
  second = push_bytes-Pushed mid val first.placed small_val

  -- The key is stored, and its value is not.
  half-Put :
      (p : ℕ)
      → (push_bytes kv.arena key).0 ≡ some (p, length key)
      → mid.head ≡ kv.arena.head + length key
      → (push_bytes mid val).0 ≡ none
      → mid.cap < mid.head + length val
      → (push_bytes mid val).1.head ≡ mid.head
      → Put kv kvs key val (put kv key val).1
  unfolding put admitted
  half-Put p at used refused full same =
      rw
        (
          insert_key-some kv val p (length key) (push_bytes kv.arena key) at,
          insert_value-none kv p (length key) (push_bytes mid val) refused,
        )
        (record {
          fresh = [];
          valid = record {
            place = second.placed;
            holds =
                rw append-nil (
                  Entries-later second kv.entries kvs (Entries-later first kv.entries kvs h.holds));
          };
          taken = λ ops.
              rw
                (
                  not_ltb (free kv) (length key) (omega (arith, first.capped, first.placed.inside)),
                  lt→ltb (free kv - length key) (length val)
                      (omega (arith, first.capped, first.placed.inside)),
                )
                (ap (λ n. admitted n ops) (omega (arith, first.capped, second.capped)));
        })

  IsEntry-intro :
      (p q : ℕ)
      → (push_bytes kv.arena key).0 ≡ some (p, length key)
      → (push_bytes mid val).0 ≡ some (q, length val)
      → IsEntry
          (push_bytes mid val).1
          (record { key_at = p; key_len = length key; val_at = q; val_len = length val })
          key
          val
  IsEntry-intro p q at there =
      let (key_used, key_read) = first.stored p (length key) at in
      let (val_used, val_read) = second.stored q (length val) there in
      record {
        key_used = IsUsed-later second p (length key) key_used;
        val_used = val_used;
        key_read = second.kept p (length key) key_used ∙ key_read;
        val_read = val_read;
      }

  -- Both are stored.
  whole-Put :
      (p q : ℕ)
      → (push_bytes kv.arena key).0 ≡ some (p, length key)
      → mid.head ≡ kv.arena.head + length key
      → (push_bytes mid val).0 ≡ some (q, length val)
      → (push_bytes mid val).1.head ≡ mid.head + length val
      → Put kv kvs key val (put kv key val).1
  unfolding put admitted
  whole-Put p q at used there filled =
      rw
        (
          insert_key-some kv val p (length key) (push_bytes kv.arena key) at,
          insert_value-some kv p (length key) q (length val) (push_bytes mid val) there,
        )
        (record {
          fresh = (key, val) ∷ [];
          valid = record {
            place = second.placed;
            holds =
                Entries-append (push_bytes mid val).1 kv.entries kvs _ key val
                  (Entries-later second kv.entries kvs (Entries-later first kv.entries kvs h.holds))
                  (IsEntry-intro p q at there);
          };
          taken = λ ops.
              rw
                (
                  not_ltb (free kv) (length key) (omega (arith, first.capped, first.placed.inside)),
                  not_ltb (free kv - length key) (length val)
                      (omega (arith, first.capped, second.capped, second.placed.inside)),
                )
                (ap (λ n. (key, val) ∷ admitted n ops)
                  (omega (arith, first.capped, second.capped)));
        })

  pub put-Put : Put kv kvs key val (put kv key val).1
  unfolding put admitted
  put-Put = elim first.outcome [
    | inl (refused, full, same) ↦
        rw (insert_key-none kv val (push_bytes kv.arena key) refused) (record {
          fresh = [];
          valid = record {
            place = first.placed;
            holds = rw append-nil (Entries-later first kv.entries kvs h.holds);
          };
          taken = λ ops.
              rw (lt→ltb (free kv) (length key) (omega arith))
                (ap (λ n. admitted n ops) (omega (arith, first.capped)));
        })
    | inr (p, at, used) ↦ elim second.outcome [
      | inl (refused, full, same) ↦ half-Put p at used refused full same
      | inr (q, there, filled) ↦ whole-Put p q at used there filled
    ]
  ]
