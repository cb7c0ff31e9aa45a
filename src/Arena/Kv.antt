-- ===== src/Arena/Kv.antt =====
-- crates/zerokv/src/zerocopy.rs: `ArenaKv`, a store whose keys and values lie in an arena.
pub mod Entries
pub mod Puts
pub mod Replay
use zerokv.Prelude.{
  ℕ, ◌+◌, Bool, true, false, ◌&&◌, Option, none, some, List, [], ◌∷◌, ◌++◌, ◌==◌, if◌then◌else◌,
}
use mathlib.Core.Option
use zerokv.Memory.{Memory, read_bytes}
use zerokv.Arena.{Arena, with_capacity, push_bytes}

-- The two spans of an entry.
pub record Entry : Type 0 where
  pub key_at : ℕ
  pub key_len : ℕ
  pub val_at : ℕ
  pub val_len : ℕ

pub record ArenaKv : Type 0 where
  pub arena : Arena
  pub entries : List Entry

unfoldable pub new : ℕ → Memory → ℕ → Option ArenaKv
new base mem cap =
    Option.map (λ a. record { arena = a; entries = [] }) (with_capacity base mem cap 64)

-- The second half of `put`, on what `push_bytes` has returned for the value.
pub insert_value : ArenaKv → ℕ → ℕ → Option (ℕ × ℕ) × Arena → Bool × ArenaKv
insert_value kv key_at key_len (none, a) = (false, record kv { arena = a })
insert_value kv key_at key_len (some (val_at, val_len), a) = (
  true,
  record {
    arena = a;
    entries =
        kv.entries
        ++ record { key_at = key_at; key_len = key_len; val_at = val_at; val_len = val_len } ∷ [];
  },
)

-- The first half, on what it has returned for the key.
pub insert_key : ArenaKv → List ℕ → Option (ℕ × ℕ) × Arena → Bool × ArenaKv
unfolding insert_value
insert_key kv val (none, a) = (false, record kv { arena = a })
insert_key kv val (some (key_at, key_len), a) = insert_value kv key_at key_len (push_bytes a val)

unfoldable pub put : ArenaKv → List ℕ → List ℕ → Bool × ArenaKv
unfolding insert_key
put kv key val = insert_key kv val (push_bytes kv.arena key)

-- `==` of two byte slices.
unfoldable pub slice_eq : List ℕ → List ℕ → Bool
slice_eq [] [] = true
slice_eq [] (y ∷ ys) = false
slice_eq (x ∷ xs) [] = false
slice_eq (x ∷ xs) (y ∷ ys) = x == y && slice_eq xs ys

pub scan : Memory → List Entry → List ℕ → Option (List ℕ)
unfolding slice_eq
scan mem [] key = none
scan mem (e ∷ entries) key =
    let rest = scan mem entries key in
    if slice_eq (read_bytes mem e.key_at e.key_len) key
    then some (read_bytes mem e.val_at e.val_len)
    else rest

unfoldable pub get : ArenaKv → List ℕ → Option (List ℕ)
unfolding scan
get kv key = scan kv.arena.mem kv.entries key
