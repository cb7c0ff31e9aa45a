-- ===== src/Store/Answers.antt =====
-- What the callers of a store see, and what its log holds in the end.
use mathlib.Core.Option
use zerokv.Prelude.{ℕ, ◌≡◌, refl, ap, ap₂, ◌∙◌, Bool, not, Option, none, some, List, [], ◌∷◌}
use zerokv.Log.{MappedLog}
use zerokv.Index.{Bytes, SkipList, IsMap, absent, new}
use zerokv.Index.Refines.{
  Op, put, fetch, erase, count, Answer, flag, value, size, Table, empty, put_in, erase_in, answers,
  Rel,
}
use zerokv.Index.Answers.{insert-Rel, remove-Rel, get-at, len-keys, new-Rel}
use zerokv.Store.{KvStore, logged, with_index, delete, len, durable}
use zerokv.Store
use zerokv.Store.Wal.{after, after-nil, after-logged}

abbrev pub Served : Type 0 → Type 0
Served S = Option (List Answer × KvStore S)

module _ {S : Type 0} where
  abbrev pub cons : Answer → List Answer × KvStore S → List Answer × KvStore S
  cons a (l, store) = (a ∷ l, store)

  unfoldable pub flagged : (KvStore S → Served S) → Option (Bool × KvStore S) → Served S
  flagged rest none = none
  flagged rest (some (b, store)) = Option.map (cons (flag b)) (rest store)

  unfoldable pub valued : Served S → Option (Option Bytes) → Served S
  valued rest none = none
  valued rest (some v) = Option.map (cons (value v)) rest

module _ {S : Type 0} (list : SkipList S) where
  -- The answers of a store to a sequence of calls, and the store then; `none` is a panic.
  unfoldable pub serve : KvStore S → List Op → Served S
  unfolding flagged valued
  serve store [] = some ([], store)
  serve store (put key val ∷ ops) = flagged (λ s. serve s ops) (Store.put list store key val)
  serve store (fetch key ∷ ops) = valued (serve store ops) (Store.get list store key)
  serve store (erase key ∷ ops) = flagged (λ s. serve s ops) (delete list store key)
  serve store (count ∷ ops) = Option.map (cons (size (len list store))) (serve store ops)

  -- The store that answers as one map from `t` on and has logged the frames of `ops` behind `wal`.
  pub record Done (t : Table) (wal : Option MappedLog) (ops : List Op) (result : Served S)
      : Type 0 where
    pub store : KvStore S
    pub answered : result ≡ some (answers t ops, store)
    pub kept : store.wal ≡ after wal ops

  module _ (law : IsMap list) where
    serve-Done :
        (ops : List Op) (store : KvStore S) (t : Table)
        → Rel list law store.index t
        → Done t store.wal ops (serve store ops)
    unfolding serve answers Store.put delete Store.get len with_index
    serve-Done [] store t r = record { store = store; answered = refl; kept = after-nil store.wal }
    serve-Done (put key val ∷ ops) store t r =
        let (next, e, after_put) = insert-Rel list law store.index t key r val in
        let done =
          serve-Done ops (record { index = next; wal = logged key val store.wal })
            (put_in t key val) after_put in
        rw e (record {
          store = done.store;
          answered = ap (Option.map (cons (flag (absent (t.at key))))) done.answered;
          kept = done.kept ∙ after-logged store.wal key val ops;
        })
    serve-Done (fetch key ∷ ops) store t r =
        let done = serve-Done ops store t r in
        rw (get-at list law store.index t key r) (record {
          store = done.store;
          answered = ap (Option.map (cons (value (t.at key)))) done.answered;
          kept = done.kept;
        })
    serve-Done (erase key ∷ ops) store t r =
        let (next, e, after_erase) = remove-Rel list law store.index t key r in
        let done =
          serve-Done ops (record { index = next; wal = store.wal }) (erase_in t key) after_erase in
        rw e (record {
          store = done.store;
          answered = ap (Option.map (cons (flag (not (absent (t.at key)))))) done.answered;
          kept = done.kept;
        })
    serve-Done (count ∷ ops) store t r =
        let done = serve-Done ops store t r in
        record {
          store = done.store;
          answered =
              ap₂ (λ n o. Option.map (cons (size n)) o) (len-keys list law store.index t r)
                done.answered;
          kept = done.kept;
        }

-- A new store, in memory or on the log that `durable` has opened, answers every sequence of calls as
-- one empty map does, without a panic, whether or not its log is full. The log has then been given
-- the frames of the puts, in order, and nothing else.
pub serve-new :
    {S : Type 0} (list : SkipList S) (num_shards hint : ℕ) (wal : Option MappedLog) (ops : List Op)
    → IsMap list
    → Done list empty wal ops
        (serve list (record { index = new list num_shards hint; wal = wal }) ops)
serve-new list num_shards hint wal ops law =
    serve-Done list law ops (record { index = new list num_shards hint; wal = wal }) empty
      (new-Rel list law num_shards hint)
