-- ===== src/Index.antt =====
-- crates/zerokv/src/shard.rs: the index, as many ordered maps as there are shards.
pub mod Route
pub mod Refines
pub mod Answers
pub mod Tests
use zerokv.Prelude.{
  ℕ, zero, suc, ◌+◌, ◌-◌, ◌*◌, ◌/◌, ◌%◌, ◌^◌, ◌≡◌, ◌≢◌, max, Bool, Option, none, some, List, [],
  ◌∷◌, length, get_elem?, not, set, replicate, bit_and, bit_xor,
}
use mathlib.Core.Option
use zerokv.Words.{word, wrapping_mul, next_power_of_two}

abbrev pub Bytes : Type 0
Bytes = List ℕ

-- What the index uses of `SkipList`, with the guards left out.
pub record SkipList (S : Type 0) : Type 0 where
  pub with_capacity_hint : ℕ → S
  pub insert : S → Bytes → Bytes → Bool × S
  pub get : S → Bytes → Option Bytes
  pub remove : S → Bytes → Bool × S
  pub len : S → ℕ

abbrev pub absent : Option Bytes → Bool
absent none = Bool.true
absent (some v) = Bool.false

abbrev pub one_if : Bool → ℕ
one_if Bool.true = 1
one_if Bool.false = 0

-- A skip list is a map, as far as a single caller sees.
pub record IsMap {S : Type 0} (list : SkipList S) : Type 1 where
  pub Valid : S → Type 0
  pub new-Valid : (hint : ℕ) → Valid (list.with_capacity_hint hint)
  pub get-new : (hint : ℕ) (k : Bytes) → list.get (list.with_capacity_hint hint) k ≡ none
  pub len-new : (hint : ℕ) → list.len (list.with_capacity_hint hint) ≡ 0
  pub insert-Valid : (s : S) (k v : Bytes) → Valid s → Valid (list.insert s k v).1
  pub insert-flag : (s : S) (k v : Bytes) → Valid s → (list.insert s k v).0 ≡ absent (list.get s k)
  pub get-insert_same : (s : S) (k v : Bytes) → Valid s → list.get (list.insert s k v).1 k ≡ some v
  pub get-insert_other :
      (s : S) (k v q : Bytes) → Valid s → q ≢ k → list.get (list.insert s k v).1 q ≡ list.get s q
  pub len-insert :
      (s : S) (k v : Bytes)
      → Valid s
      → list.len (list.insert s k v).1 ≡ list.len s + one_if (absent (list.get s k))
  pub remove-Valid : (s : S) (k : Bytes) → Valid s → Valid (list.remove s k).1
  pub remove-flag :
      (s : S) (k : Bytes) → Valid s → (list.remove s k).0 ≡ not (absent (list.get s k))
  pub get-remove_same : (s : S) (k : Bytes) → Valid s → list.get (list.remove s k).1 k ≡ none
  pub get-remove_other :
      (s : S) (k q : Bytes) → Valid s → q ≢ k → list.get (list.remove s k).1 q ≡ list.get s q
  pub len-remove :
      (s : S) (k : Bytes)
      → Valid s
      → list.len (list.remove s k).1 + one_if (not (absent (list.get s k))) ≡ list.len s

-- The loop of `fnv1a`.
pub fnv1a_from : ℕ → Bytes → ℕ
fnv1a_from h [] = h
fnv1a_from h (b ∷ bytes) = fnv1a_from (wrapping_mul (bit_xor h b) 0x100000001b3) bytes

unfoldable pub fnv1a : Bytes → ℕ
unfolding fnv1a_from
fnv1a bytes = fnv1a_from 0xcbf29ce484222325 bytes

pub record ShardedIndex (S : Type 0) : Type 0 where
  pub shards : List S
  pub mask : ℕ

unfoldable pub route : ℕ → Bytes → ℕ
unfolding fnv1a
route mask key = bit_and (fnv1a key) mask

-- `none` below is a shard number out of bounds, which panics.
module _ {S : Type 0} (list : SkipList S) where
  unfoldable pub new : ℕ → ℕ → ShardedIndex S
  new num_shards capacity_hint =
      let k = next_power_of_two (max num_shards 1) in
      let per_shard = max (capacity_hint / k) 2 in
      record { shards = replicate k (list.with_capacity_hint per_shard); mask = k - 1 }

  pub on_shard :
      {A : Type 0} → ShardedIndex S → ℕ → (S → A × S) → Option S → Option (A × ShardedIndex S)
  on_shard index i f none = none
  on_shard index i f (some s) =
      let (a, s') = f s in some (a, record index { shards = set index.shards i s' })

  -- `self.shard(key)`, and what is done to that shard.
  pub with_shard : {A : Type 0} → ShardedIndex S → Bytes → (S → A × S) → Option (A × ShardedIndex S)
  unfolding route on_shard
  with_shard index key f =
      on_shard index (route index.mask key) f (get_elem? index.shards (route index.mask key))

  pub insert : ShardedIndex S → Bytes → Bytes → Option (Bool × ShardedIndex S)
  unfolding with_shard
  insert index key val = with_shard index key (λ s. list.insert s key val)

  pub get : ShardedIndex S → Bytes → Option (Option Bytes)
  unfolding route
  get index key = Option.map (λ s. list.get s key) (get_elem? index.shards (route index.mask key))

  pub remove : ShardedIndex S → Bytes → Option (Bool × ShardedIndex S)
  unfolding with_shard
  remove index key = with_shard index key (λ s. list.remove s key)

  abbrev pub total : List S → ℕ
  total [] = 0
  total (s ∷ shards) = list.len s + total shards

  pub len : ShardedIndex S → ℕ
  len index = total index.shards
