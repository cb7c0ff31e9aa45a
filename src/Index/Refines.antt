-- ===== src/Index/Refines.antt =====
-- The sharded index answers as one map.
use mathlib.Core.Option
use mathlib.Core.Option.{some-injective}
use zerokv.Prelude.{
  ℕ, zero, suc, ◌+◌, ◌-◌, ◌≡◌, ◌≢◌, ◌⊎◌, inl, inr, refl, sym, ap, ◌∙◌, subst, Bool, true, false,
  not, Option, none, some, List, [], ◌∷◌, get_elem?, set, arith, if◌then◌else◌, Bool-cases,
  length-set, get_elem?-set_self,
}
use zerokv.Arena.Kv.{slice_eq}
use zerokv.Index.{
  Bytes, SkipList, IsMap, ShardedIndex, absent, one_if, route, insert, get, remove, total, len,
}
use zerokv.Index.Route.{IsShaped, route-lt}
use zerokv.Arena.Kv.Entries.{slice_eq-eq, slice_eq_refl}

pub data Op : Type 0 where
  put : (key val : Bytes) → Op
  fetch : (key : Bytes) → Op
  erase : (key : Bytes) → Op
  count : Op

pub data Answer : Type 0 where
  flag : Bool → Answer
  value : Option Bytes → Answer
  size : ℕ → Answer

-- One map, with the number of its keys.
pub record Table : Type 0 where
  pub at : Bytes → Option Bytes
  pub keys : ℕ

abbrev pub update : (Bytes → Option Bytes) → Bytes → Option Bytes → Bytes → Option Bytes
update at key val q = if slice_eq q key then val else at q

abbrev pub empty : Table
empty = record { at = λ _. none; keys = 0 }

abbrev pub put_in : Table → Bytes → Bytes → Table
put_in t key val = record {
  at = update t.at key (some val);
  keys = t.keys + one_if (absent (t.at key));
}

abbrev pub erase_in : Table → Bytes → Table
erase_in t key = record {
  at = update t.at key none;
  keys = t.keys - one_if (not (absent (t.at key)));
}

-- How one map answers.
unfoldable pub answers : Table → List Op → List Answer
answers t [] = []
answers t (put key val ∷ ops) = flag (absent (t.at key)) ∷ answers (put_in t key val) ops
answers t (fetch key ∷ ops) = value (t.at key) ∷ answers t ops
answers t (erase key ∷ ops) = flag (not (absent (t.at key))) ∷ answers (erase_in t key) ops
answers t (count ∷ ops) = size t.keys ∷ answers t ops

module _ {S : Type 0} (list : SkipList S) where
  unfoldable pub flagged :
      (ShardedIndex S → Option (List Answer))
      → Option (Bool × ShardedIndex S)
      → Option (List Answer)
  flagged rest none = none
  flagged rest (some (b, index)) = Option.map (λ l. flag b ∷ l) (rest index)

  unfoldable pub valued : Option (List Answer) → Option (Option Bytes) → Option (List Answer)
  valued rest none = none
  valued rest (some v) = Option.map (λ l. value v ∷ l) rest

  -- How the index answers; `none` is a panic.
  unfoldable pub serve : ShardedIndex S → List Op → Option (List Answer)
  unfolding flagged valued
  serve index [] = some []
  serve index (put key val ∷ ops) = flagged (λ i. serve i ops) (insert list index key val)
  serve index (fetch key ∷ ops) = valued (serve index ops) (get list index key)
  serve index (erase key ∷ ops) = flagged (λ i. serve i ops) (remove list index key)
  serve index (count ∷ ops) = Option.map (λ l. size (len list index) ∷ l) (serve index ops)

module _ {S : Type 0} (list : SkipList S) (law : IsMap list) where
  -- The index stands for the table.
  pub record Rel (index : ShardedIndex S) (t : Table) : Type 0 where
    pub shaped : IsShaped index
    pub valid : (i : ℕ) (s : S) → get_elem? index.shards i ≡ some s → law.Valid s
    pub agree :
        (key : Bytes) (s : S)
        → get_elem? index.shards (route index.mask key) ≡ some s
        → list.get s key ≡ t.at key
    pub sized : total list index.shards ≡ t.keys

  pub total-set :
      (shards : List S) (i : ℕ) (s s' : S)
      → get_elem? shards i ≡ some s
      → total list (set shards i s') + list.len s ≡ total list shards + list.len s'
  total-set [] i s s' e = cc
  total-set (x ∷ shards) zero s s' e = omega (arith, ap list.len (some-injective _ _ e))
  total-set (x ∷ shards) (suc i) s s' e = omega (arith, total-set shards i s s' e)

  get_elem?-set_cases :
      (xs : List S) (i : ℕ) (v : S) (j : ℕ) (x : S) {y : S}
      → get_elem? xs i ≡ some y
      → get_elem? (set xs i v) j ≡ some x
      → ((i ≡ j) × (x ≡ v)) ⊎ (get_elem? xs j ≡ some x)
  get_elem?-set_cases [] i v j x at_i e = inr e
  get_elem?-set_cases (z ∷ xs) zero v zero x at_i e = inl (refl, sym (some-injective _ _ e))
  get_elem?-set_cases (z ∷ xs) zero v (suc j) x at_i e = inr e
  get_elem?-set_cases (z ∷ xs) (suc i) v zero x at_i e = inr e
  get_elem?-set_cases (z ∷ xs) (suc i) v (suc j) x at_i e =
      elim (get_elem?-set_cases xs i v j x at_i e) [ inl h ↦ inl (ap suc h.0, h.1) | inr h ↦ inr h ]

  -- What a shard becomes on an operation for `key` that makes its value `val`.
  pub record Changed (s : S) (key : Bytes) (val : Option Bytes) (s' : S) : Type 0 where
    pub valid : law.Valid s'
    pub same : list.get s' key ≡ val
    pub other : (q : Bytes) → q ≢ key → list.get s' q ≡ list.get s q

  pub Changed-Rel :
      (index : ShardedIndex S) (t : Table) (key : Bytes) (val : Option Bytes) (s s' : S) (keys : ℕ)
      → Rel index t
      → get_elem? index.shards (route index.mask key) ≡ some s
      → Changed s key val s'
      → list.len s' + t.keys ≡ list.len s + keys
      → Rel
          (record index { shards = set index.shards (route index.mask key) s' })
          (record { at = update t.at key val; keys = keys })
  Changed-Rel index t key val s s' keys r at_key change counted = record {
    shaped = record {
      log = r.shaped.log;
      count = length-set index.shards (route index.mask key) s' ∙ r.shaped.count;
      masked = r.shaped.masked;
    };
    valid = λ i x e.
        elim (get_elem?-set_cases index.shards (route index.mask key) s' i x at_key e) [
          | inl h ↦ subst law.Valid (sym h.1) change.valid
          | inr h ↦ r.valid i x h
        ];
    agree = λ q x e. agrees q x e;
    sized =
        omega (arith, r.sized, counted, total-set index.shards (route index.mask key) s s' at_key);
  }
    where
      agrees :
          (q : Bytes) (x : S)
          → get_elem? (set index.shards (route index.mask key) s') (route index.mask q) ≡ some x
          → list.get x q ≡ update t.at key val q
      agrees q x e = elim (Bool-cases (slice_eq q key)) [
        | inl hit ↦ rw hit (
            let same = slice_eq-eq q key hit in
            ap (λ (k : Bytes). list.get x k) same
            ∙ ap (λ (o : S). list.get o key)
                (some-injective _ _ (
                  sym (
                    subst
                      (λ k.
                        get_elem? (set index.shards (route index.mask key) s') (route index.mask k)
                        ≡ some x)
                      same e)
                  ∙ get_elem?-set_self index.shards (route index.mask key) s'
                      (route-lt index key r.shaped)))
            ∙ change.same)
        | inr miss ↦ rw miss (
            let apart : q ≢ key = λ same.
              true-false (sym (slice_eq_refl key) ∙ ap (λ k. slice_eq k key) (sym same) ∙ miss) in
            elim (get_elem?-set_cases index.shards (route index.mask key) s' (route index.mask q) x
              at_key e) [
                | inl h ↦
                    ap (λ (o : S). list.get o q) h.1
                    ∙ change.other q apart
                    ∙ r.agree q s (ap (get_elem? index.shards) (sym h.0) ∙ at_key)
                | inr h ↦ r.agree q x h
              ])
      ]
        where
          true-false : true ≢ false
          true-false b = cc
