-- ===== src/Index/Answers.antt =====
-- From a new index on, whatever is asked.
use mathlib.Core.Option
use mathlib.Core.Option.{some-injective}
use zerokv.Prelude.{
  ℕ, zero, suc, ◌+◌, ◌-◌, ◌≡◌, refl, sym, ap, ap₂, ◌∙◌, subst, not, max, ◌/◌, none, some, List, [],
  ◌∷◌, get_elem?, set, replicate, arith, get_elem?_of_lt,
}
use zerokv.Words.{next_power_of_two}
use zerokv.Index.{
  Bytes, SkipList, IsMap, ShardedIndex, absent, one_if, route, new, on_shard, with_shard, insert,
  get, remove, total, len,
}
use zerokv.Index.Route.{route-lt, new-IsShaped}
use zerokv.Index.Refines.{
  Op, put, fetch, erase, count, flag, value, size, Table, empty, put_in, erase_in, answers, flagged,
  valued, serve, Rel, Changed-Rel, total-set,
}

module _ {S : Type 0} (list : SkipList S) (law : IsMap list) where
  module _ (index : ShardedIndex S) (t : Table) (key : Bytes) (r : Rel list law index t) where
    abbrev place : ℕ
    place = route index.mask key

    home : (s : S) × (get_elem? index.shards place ≡ some s)
    home = get_elem?_of_lt index.shards place (route-lt index key r.shaped)

    abbrev before : S
    before = home.0

    was : list.get before key ≡ t.at key
    was = r.agree key before home.1

    ok : law.Valid before
    ok = r.valid place before home.1

    pub insert-Rel :
        (val : Bytes)
        → (next : ShardedIndex S) × (insert list index key val ≡ some (absent (t.at key), next))
          × Rel list law next (put_in t key val)
    unfolding insert with_shard on_shard
    insert-Rel val = (
      record index { shards = set index.shards place (list.insert before key val).1 },
      ap (on_shard list index place (λ s. list.insert s key val)) home.1
          ∙ ap
              (λ b. some (
                b,
                record index { shards = set index.shards place (list.insert before key val).1 },
              ))
              (law.insert-flag before key val ok ∙ ap absent was),
      Changed-Rel list law index t key (some val) before (list.insert before key val).1
          (t.keys + one_if (absent (t.at key))) r home.1
          (record {
            valid = law.insert-Valid before key val ok;
            same = law.get-insert_same before key val ok;
            other = λ q ne. law.get-insert_other before key val q ok ne;
          })
          (omega (arith, law.len-insert before key val ok, ap (λ o. one_if (absent o)) was)),
    )

    pub remove-Rel :
        (next : ShardedIndex S) × (remove list index key ≡ some (not (absent (t.at key)), next))
        × Rel list law next (erase_in t key)
    unfolding remove with_shard on_shard
    remove-Rel = (
      record index { shards = set index.shards place (list.remove before key).1 },
      ap (on_shard list index place (λ s. list.remove s key)) home.1
          ∙ ap
              (λ b.
                some
                  (b, record index { shards = set index.shards place (list.remove before key).1 }))
              (law.remove-flag before key ok ∙ ap (λ o. not (absent o)) was),
      Changed-Rel list law index t key none before (list.remove before key).1
          (t.keys - one_if (not (absent (t.at key)))) r home.1
          (record {
            valid = law.remove-Valid before key ok;
            same = law.get-remove_same before key ok;
            other = λ q ne. law.get-remove_other before key q ok ne;
          })
          (omega (
            arith,
            law.len-remove before key ok,
            ap (λ o. one_if (not (absent o))) was,
            total-set list law index.shards place before (list.remove before key).1 home.1,
            r.sized,
          )),
    )

    pub get-at : get list index key ≡ some (t.at key)
    unfolding get
    get-at = ap (Option.map (λ s. list.get s key)) home.1 ∙ ap some was

  pub len-keys :
      (index : ShardedIndex S) (t : Table) → Rel list law index t → len list index ≡ t.keys
  unfolding len
  len-keys index t r = r.sized

  serve-Rel :
      (ops : List Op) (index : ShardedIndex S) (t : Table)
      → Rel list law index t
      → serve list index ops ≡ some (answers t ops)
  unfolding serve answers flagged valued len
  serve-Rel [] index t r = refl
  serve-Rel (put key val ∷ ops) index t r =
      let (next, e, after) = insert-Rel index t key r val in
      rw e (
        ap (Option.map (λ l. flag (absent (t.at key)) ∷ l))
          (serve-Rel ops next (put_in t key val) after))
  serve-Rel (fetch key ∷ ops) index t r =
      rw (get-at index t key r)
        (ap (Option.map (λ l. value (t.at key) ∷ l)) (serve-Rel ops index t r))
  serve-Rel (erase key ∷ ops) index t r =
      let (next, e, after) = remove-Rel index t key r in
      rw e (
        ap (Option.map (λ l. flag (not (absent (t.at key))) ∷ l))
          (serve-Rel ops next (erase_in t key) after))
  serve-Rel (count ∷ ops) index t r =
      ap₂ (λ n o. Option.map (λ l. size n ∷ l) o) r.sized (serve-Rel ops index t r)

  pub new-Rel : (num_shards hint : ℕ) → Rel list law (new list num_shards hint) empty
  unfolding new
  new-Rel num_shards hint =
      let k = next_power_of_two (max num_shards 1) in
      let per_shard = max (hint / k) 2 in
      let first = list.with_capacity_hint per_shard in
      record {
        shaped = new-IsShaped list num_shards hint;
        valid = λ i s e. subst law.Valid (sym (replicate-get _ _ i s e)) (law.new-Valid _);
        agree = λ key s e.
            ap (λ x. list.get x key) (replicate-get k first (route (k - 1) key) s e)
            ∙ law.get-new per_shard key;
        sized = total-replicate _ _ (law.len-new _);
      }
    where
      replicate-get : (n : ℕ) (x : S) (i : ℕ) (s : S) → get_elem? (replicate n x) i ≡ some s → s ≡ x
      replicate-get zero x i s e = cc
      replicate-get (suc n) x zero s e = sym (some-injective _ _ e)
      replicate-get (suc n) x (suc i) s e = replicate-get n x i s e

      total-replicate : (n : ℕ) (x : S) → list.len x ≡ 0 → total list (replicate n x) ≡ 0
      total-replicate zero x e = refl
      total-replicate (suc n) x e = omega (arith, e, total-replicate n x e)

-- Whatever number of shards a new index has, and whatever skip list that is a map its shards are, it
-- answers every sequence of inserts, lookups, removals and questions for its length as one empty
-- map does, and never reaches for a shard that it has not.
pub serve-answers :
    {S : Type 0} (list : SkipList S) (num_shards hint : ℕ) (ops : List Op)
    → IsMap list
    → serve list (new list num_shards hint) ops ≡ some (answers empty ops)
serve-answers list num_shards hint ops law =
    serve-Rel list law ops (new list num_shards hint) empty (new-Rel list law num_shards hint)
