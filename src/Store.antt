-- ===== src/Store.antt =====
-- crates/zerokv/src/store.rs: the index, and the log of the puts.
pub mod Wal
pub mod Answers
mod Tests
use zerokv.Prelude.{
  ℕ, zero, suc, ◌+◌, ◌-◌, ◌*◌, ◌/◌, ◌%◌, ◌^◌, ◌≡◌, Bool, true, false, Option, none, some, List, [],
  ◌∷◌, ◌++◌, length,
}
use mathlib.Core.Option
use zerokv.Memory.{Memory}
use zerokv.Log.{MappedLog, open_log, append}
use zerokv.Log
use zerokv.Index.{Bytes, SkipList, ShardedIndex, new}
use zerokv.Index

pub record KvStore (S : Type 0) : Type 0 where
  pub index : ShardedIndex S
  pub wal : Option MappedLog

-- `u32::to_le_bytes`.
abbrev pub to_le_bytes : ℕ → Bytes
to_le_bytes n = n % 256 ∷ n / 256 % 256 ∷ n / 2 ^ 16 % 256 ∷ n / 2 ^ 24 % 256 ∷ []

-- What `put` appends to the log.
unfoldable pub frame : Bytes → Bytes → Bytes
frame key value = to_le_bytes (length key % 2 ^ 32) ++ key ++ value

-- What `put` does to the log, if there is one; what `append` returns is dropped.
unfoldable pub logged : Bytes → Bytes → Option MappedLog → Option MappedLog
unfolding frame
logged key value wal = Option.map (λ log. (append log (frame key value)).1) wal

module _ {S : Type 0} (list : SkipList S) where
  unfoldable pub in_memory : ℕ → ℕ → KvStore S
  in_memory num_shards capacity_hint = record {
    index = new list num_shards capacity_hint;
    wal = none;
  }

  -- The first three arguments are what `MappedLog::open` gets from the system.
  unfoldable pub durable : ℕ → Memory → Option Bytes → ℕ → ℕ → ℕ → Option (KvStore S)
  durable base mem existing num_shards capacity_hint wal_bytes =
      Option.map (λ log. record { index = new list num_shards capacity_hint; wal = some log })
        (open_log base mem existing wal_bytes)

  -- The store with the index that an operation leaves.
  pub with_index :
      {A : Type 0} → Option MappedLog → Option (A × ShardedIndex S) → Option (A × KvStore S)
  with_index wal none = none
  with_index wal (some (a, index)) = some (a, record { index = index; wal = wal })

  -- `none` in the results is a panic.
  unfoldable pub put : KvStore S → Bytes → Bytes → Option (Bool × KvStore S)
  unfolding logged with_index
  put store key value =
      with_index (logged key value store.wal) (Index.insert list store.index key value)

  unfoldable pub get : KvStore S → Bytes → Option (Option Bytes)
  get store key = Index.get list store.index key

  unfoldable pub delete : KvStore S → Bytes → Option (Bool × KvStore S)
  unfolding with_index
  delete store key = with_index store.wal (Index.remove list store.index key)

  unfoldable pub len : KvStore S → ℕ
  len store = Index.len list store.index

-- The flag says whether the log reports an error; the second argument is how its writes go.
pub flush_wal : Option MappedLog → Option ℕ → Bool × Option MappedLog
flush_wal none written = (true, none)
flush_wal (some log) written = let (done, log') = Log.flush log written in (done, some log')

module _ {S : Type 0} where
  unfoldable pub flush : KvStore S → Option ℕ → Bool × KvStore S
  unfolding flush_wal
  flush store written =
      let (done, wal) = flush_wal store.wal written in (done, record store { wal = wal })
