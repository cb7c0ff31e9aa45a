-- ===== src/Skiplist/AsMap.antt =====
-- The map as the index uses it (crates/zerokv/src/shard.rs): each shard is one, with the state of a
-- level generator beside it, and fuel for three rounds more than the map says that it has entries.
use zerokv.Prelude.{
  ℕ, suc, ◌+◌, ◌≤◌, ◌≡◌, ◌≢◌, refl, sym, ap, ◌∙◌, false, not, none, some, List, [], arith, inl, inr,
  Bool-cases,
}
use zerokv.Index.{Bytes, SkipList, IsMap, absent, one_if, new}
use zerokv.Index.Refines.{Op, serve, answers, empty}
use zerokv.Index.Answers.{serve-answers}
use zerokv.Arena.Kv.{slice_eq}
use zerokv.Arena.Kv.Entries.{slice_eq-eq, slice_eq_refl}
use zerokv.Backoff.Levels.{random_geometric_level_lem}
use zerokv.Skiplist.Heap.{Run}
use zerokv.Skiplist.Search.{get}
use zerokv.Skiplist.Entries.{Entry}
use zerokv.Skiplist.Valid.{IsValid}
use zerokv.Skiplist.Valid.Lookups.{lookup}
use zerokv.Skiplist.Ops.{nowhere, with_capacity_hint, insert, random_level, remove}
use zerokv.Skiplist.Ops.Starts.{with_capacity_hint-IsValid}
use zerokv.Skiplist.Maps.{IsInserted}
use zerokv.Skiplist.Maps.Whole.{get-lookup, insert-Inserts, remove-Removes}
use zerokv.Skiplist.Search

abbrev ShardState : Type 0
ShardState = Search.SkipList × ℕ

-- What a run returns; the second is what stands for a run that fails, which none does.
abbrev result_or : {A : Type 0} → Run A → A → A
result_or (Run.ok a) d = a
result_or (Run.changed h) d = d
result_or Run.fault d = d
result_or Run.out_of_fuel d = d

abbrev no_map : Search.SkipList
no_map = record { head = 0; max_level = 0; len = 0; heap = nowhere; retired = [] }

abbrev fuel : Search.SkipList → ℕ
fuel s = 3 + s.len

module _ (ceil_log4 : ℕ → ℕ) (seed : ℕ) where
  abbrev pub skip_lists : SkipList ShardState
  skip_lists = record {
    with_capacity_hint = λ hint. (result_or (with_capacity_hint ceil_log4 hint) no_map, seed);
    insert = λ s key val.
        let r = result_or (insert (fuel s.0) s.1 s.0 key val) (false, s.0, s.1) in
        (r.0, (r.1, r.2));
    get = λ s key. result_or (get (fuel s.0) s.0 key) none;
    remove =
        λ s key. let r = result_or (remove (fuel s.0) s.0 key) (false, s.0) in (r.0, (r.1, s.1));
    len = λ s. s.0.len;
  }

random_level-le : (rng : ℕ) (s : Search.SkipList) → (random_level rng s).0 ≤ s.max_level
unfolding random_level
random_level-le rng s =
    let bounds = random_geometric_level_lem rng (suc s.max_level) 0 (omega arith) in
    omega (arith, bounds.1, bounds.2)

module _ (s : Search.SkipList) (rng : ℕ) (es : List Entry) (valid : IsValid s es) where
  abbrev Grown : Bytes → Bytes → Type 0
  Grown key val =
      (es' : List Entry) × (s' : Search.SkipList) × (insert (fuel s) rng s key val
        ≡ Run.ok (absent (lookup es key), s', (random_level rng s).1))
      × IsValid s' es'
      × IsInserted es es' key val

  insert_whole : (key val : Bytes) → Grown key val
  unfolding insert
  insert_whole key val =
      let (es', s', run, valid', is, _, _) =
        insert-Inserts s es key valid (fuel s) (random_level rng s).0 val (omega (arith, valid.len))
          (random_level-le rng s) in
      (es', s', rw run refl, valid', is)

  get_whole : (key : Bytes) → result_or (get (fuel s) s key) none ≡ lookup es key
  get_whole key =
      ap (λ r. result_or r none) (get-lookup s es key valid (fuel s) (omega (arith, valid.len)))

slice_eq_ne : (k q : Bytes) → q ≢ k → slice_eq k q ≡ false
slice_eq_ne k q h = elim (Bool-cases (slice_eq k q)) [
  | inl e ↦ absurd (h (sym (slice_eq-eq k q e)))
  | inr e ↦ e
]

-- A well-formed map of some entries, whatever the generator's state.
abbrev Whole : ShardState → Type 0
Whole s = (es : List Entry) × IsValid s.0 es

whole_new : (c : ℕ → ℕ) (hint : ℕ) → IsValid (result_or (with_capacity_hint c hint) no_map) []
whole_new c hint = let (s, run, valid) = with_capacity_hint-IsValid c hint in rw run valid

-- Skip lists are maps, as far as a caller sees that no other thread interrupts, whatever the
-- logarithm that sizes them and the state that their level generators start from.
pub skip_lists-IsMap : (c : ℕ → ℕ) (seed : ℕ) → IsMap (skip_lists c seed)
skip_lists-IsMap c seed = record {
  Valid = Whole;
  new-Valid = λ hint. ([], whole_new c hint);
  get-new = λ hint k. get_whole _ seed [] (whole_new c hint) k;
  len-new = λ hint. (whole_new c hint).len;
  insert-Valid = λ s k v w.
      let (es', s', run, valid', is) = insert_whole s.0 s.1 w.0 w.1 k v in rw run (es', valid');
  insert-flag = λ s k v w.
      let (es', s', run, valid', is) = insert_whole s.0 s.1 w.0 w.1 k v in
      rw run (ap absent (sym (get_whole s.0 s.1 w.0 w.1 k)));
  get-insert_same = λ s k v w.
      let (es', s', run, valid', is) = insert_whole s.0 s.1 w.0 w.1 k v in
      rw run (get_whole s' s.1 es' valid' k ∙ is.answers k ∙ rw (slice_eq_refl k) refl);
  get-insert_other = λ s k v q w n.
      let (es', s', run, valid', is) = insert_whole s.0 s.1 w.0 w.1 k v in
      rw run (
        get_whole s' s.1 es' valid' q
        ∙ is.answers q
        ∙ rw (slice_eq_ne k q n) refl
        ∙ sym (get_whole s.0 s.1 w.0 w.1 q));
  len-insert = λ s k v w.
      let (es', s', run, valid', is) = insert_whole s.0 s.1 w.0 w.1 k v in
      rw run (
        valid'.len
        ∙ is.grows
        ∙ ap (λ n. n + one_if (absent (lookup w.0 k))) (sym w.1.len)
        ∙ ap (λ o. s.0.len + one_if (absent o)) (sym (get_whole s.0 s.1 w.0 w.1 k)));
  remove-Valid = λ s k w.
      let (es', s', run, valid', is, _) =
        remove-Removes s.0 w.0 k w.1 (fuel s.0) (omega (arith, w.1.len)) in
      rw run (es', valid');
  remove-flag = λ s k w.
      let (es', s', run, valid', is, _) =
        remove-Removes s.0 w.0 k w.1 (fuel s.0) (omega (arith, w.1.len)) in
      rw run (ap (λ o. not (absent o)) (sym (get_whole s.0 s.1 w.0 w.1 k)));
  get-remove_same = λ s k w.
      let (es', s', run, valid', is, _) =
        remove-Removes s.0 w.0 k w.1 (fuel s.0) (omega (arith, w.1.len)) in
      rw run (get_whole s' s.1 es' valid' k ∙ is.answers k ∙ rw (slice_eq_refl k) refl);
  get-remove_other = λ s k q w n.
      let (es', s', run, valid', is, _) =
        remove-Removes s.0 w.0 k w.1 (fuel s.0) (omega (arith, w.1.len)) in
      rw run (
        get_whole s' s.1 es' valid' q
        ∙ is.answers q
        ∙ rw (slice_eq_ne k q n) refl
        ∙ sym (get_whole s.0 s.1 w.0 w.1 q));
  len-remove = λ s k w.
      let (es', s', run, valid', is, _) =
        remove-Removes s.0 w.0 k w.1 (fuel s.0) (omega (arith, w.1.len)) in
      rw (run, get_whole s.0 s.1 w.0 w.1 k)
        (ap (λ n. n + one_if (not (absent (lookup w.0 k)))) valid'.len ∙ is.shrinks ∙ sym w.1.len);
}

-- An index over skip lists answers every sequence of inserts, lookups, removals and questions for
-- its length as one empty map does, whatever the logarithm that sizes the lists and the state that
-- their level generators start from: nothing is assumed of the lists.
pub index_answers :
    (c : ℕ → ℕ) (seed num_shards hint : ℕ) (ops : List Op)
    → serve (skip_lists c seed) (new (skip_lists c seed) num_shards hint) ops
      ≡ some (answers empty ops)
index_answers c seed num_shards hint ops =
    serve-answers (skip_lists c seed) num_shards hint ops (skip_lists-IsMap c seed)
