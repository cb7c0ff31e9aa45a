-- ===== src/Skiplist/Maps/Whole.antt =====
-- The operations of the map, as those of a list of pairs.
use zerokv.Prelude.{
  ℕ, suc, ◌+◌, ◌≤◌, ◌<◌, ◌≡◌, refl, sym, ap, subst, ◌∙◌, false, not, none, some, List, [], ◌∷◌,
  ◌++◌, length, length-append, arith, inl, inr, Bool-cases,
}
use zerokv.Index.{Bytes, absent}
use zerokv.Arena.Kv.{slice_eq}
use zerokv.Arena.Kv.Entries.{slice_eq-eq}
use zerokv.Skiplist.Heap.{Run}
use zerokv.Skiplist.Chains.{Chain}
use zerokv.Skiplist.Entries.{Entry}
use zerokv.Skiplist.Layout.{Below, Above}
use zerokv.Skiplist.Search.{SkipList, nulls, get}
use zerokv.Skiplist.Search.Walks.{on}
use zerokv.Skiplist.Search.Matches.{hits}
use zerokv.Skiplist.Search.Gets.{get_lem}
use zerokv.Skiplist.Valid.{
  IsValid, Sorted-right, before, since, before-since, before-Below, since-Above,
}
use zerokv.Skiplist.Valid.Lookups.{lookup, hit_value-lookup}
use zerokv.Skiplist.Valid.Changes.{ids_split}
use zerokv.Skiplist.Ops.{insert_at, remove, displaced}
use zerokv.Skiplist.Ops.Inserts.{insert_fresh}
use zerokv.Skiplist.Ops.Updates.{insert_present, exchanged}
use zerokv.Skiplist.Ops.Removes.{remove_absent, remove_present}
use zerokv.Skiplist.Maps.{
  IsInserted, IsRemoved, answers_by, miss_none, put_in, exchanged_in, taken_out,
}

get_split :
    (f : ℕ) (s : SkipList) (key : Bytes) (lo hi : List Entry)
    → Below key lo
    → Above key hi
    → IsValid s (lo ++ hi)
    → suc (length lo) < f
    → get f s key ≡ Run.ok (lookup (lo ++ hi) key)
get_split f s key lo hi b a valid l =
    get_lem key s.head valid.tail lo hi f s refl l b a valid.layout
      (λ k m. subst (Chain (on k s.heap) s.head) (ids_split k valid.tail lo hi) (valid.linked k m))
    ∙ ap Run.ok (hit_value-lookup key lo hi b a (Sorted-right lo hi valid.sorted))

-- What an insertion of a pair comes to.
abbrev pub Inserts : ℕ → SkipList → List Entry → Bytes → Bytes → ℕ → Type 0
Inserts f s es key val top =
    (es' : List Entry) × (s' : SkipList) × (insert_at f s key val top nulls nulls
      ≡ Run.ok (absent (lookup es key), s'))
    × IsValid s' es'
    × IsInserted es es' key val
    × (s'.retired ≡ displaced (lookup es key) s.retired)
    × (s'.max_level ≡ s.max_level)

abbrev pub Removes : ℕ → SkipList → List Entry → Bytes → Type 0
Removes f s es key =
    (es' : List Entry) × (s' : SkipList) × (remove f s key
      ≡ Run.ok (not (absent (lookup es key)), s'))
    × IsValid s' es'
    × IsRemoved es es' key
    × (s'.max_level ≡ s.max_level)

module _ (s : SkipList) (key : Bytes) (lo : List Entry) (below : Below key lo) where
  insert_missing :
      (hi : List Entry) (f top : ℕ) (val : Bytes)
      → Above key hi
      → IsValid s (lo ++ hi)
      → 2 + length lo < f
      → top ≤ s.max_level
      → hits hi key ≡ false
      → Inserts f s (lo ++ hi) key val top
  insert_missing hi f top val above valid l le miss =
      let e : Entry = record { addr = s.heap.next; key = key; value = val; top = top } in
      let none_there : lookup (lo ++ hi) key ≡ none =
        sym (hit_value-lookup key lo hi below above (Sorted-right lo hi valid.sorted))
        ∙ miss_none key hi miss in
      let (s', run, kept, level, valid') =
        insert_fresh s lo hi key below above valid f top val nulls nulls l le miss in
      (
        lo ++ e ∷ hi,
        s',
        run ∙ ap (λ o. Run.ok (absent o, s')) (sym none_there),
        valid',
        put_in lo hi key below e refl none_there,
        kept ∙ ap (λ o. displaced o s.retired) (sym none_there),
        level,
      )

  insert_split :
      (hi : List Entry) (f top : ℕ) (val : Bytes)
      → Above key hi
      → IsValid s (lo ++ hi)
      → 2 + length lo < f
      → top ≤ s.max_level
      → Inserts f s (lo ++ hi) key val top
  insert_split [] f top val above valid l le = insert_missing [] f top val above valid l le refl
  insert_split (x ∷ hi) f top val above valid l le = elim (Bool-cases (slice_eq x.key key)) [
    | inr miss ↦ insert_missing (x ∷ hi) f top val above valid l le miss
    | inl hit ↦
        let there : lookup (lo ++ x ∷ hi) key ≡ some x.value =
          sym (hit_value-lookup key lo (x ∷ hi) below above (Sorted-right lo (x ∷ hi) valid.sorted))
          ∙ rw hit refl in
        let here = slice_eq-eq x.key key hit in
        let (s', run, kept, level, valid') =
          insert_present s lo hi x key val below above valid f top nulls nulls l hit in
        (
          lo ++ exchanged s lo hi x key val below above valid ∷ hi,
          s',
          run ∙ ap (λ o. Run.ok (absent o, s')) (sym there),
          valid',
          exchanged_in lo hi key below x _ here (sym here) there,
          kept ∙ ap (λ o. displaced o s.retired) (sym there),
          level,
        )
  ]

  remove_missing :
      (hi : List Entry) (f : ℕ)
      → Above key hi
      → IsValid s (lo ++ hi)
      → 2 + length lo < f
      → hits hi key ≡ false
      → Removes f s (lo ++ hi) key
  remove_missing hi f above valid l miss =
      let none_there : lookup (lo ++ hi) key ≡ none =
        sym (hit_value-lookup key lo hi below above (Sorted-right lo hi valid.sorted))
        ∙ miss_none key hi miss in
      let (s', run, kept, level, valid') =
        remove_absent s lo hi key f below above valid (omega (arith, l)) miss in
      (
        lo ++ hi,
        s',
        run ∙ ap (λ o. Run.ok (not (absent o), s')) (sym none_there),
        valid',
        record {
          answers = answers_by (lo ++ hi) (lo ++ hi) key none none_there (λ q n. refl);
          shrinks = rw none_there (omega arith);
        },
        level,
      )

  remove_split :
      (hi : List Entry) (f : ℕ)
      → Above key hi
      → IsValid s (lo ++ hi)
      → 2 + length lo < f
      → Removes f s (lo ++ hi) key
  remove_split [] f above valid l = remove_missing [] f above valid l refl
  remove_split (x ∷ hi) f above valid l = elim (Bool-cases (slice_eq x.key key)) [
    | inr miss ↦ remove_missing (x ∷ hi) f above valid l miss
    | inl hit ↦
        let there : lookup (lo ++ x ∷ hi) key ≡ some x.value =
          sym (hit_value-lookup key lo (x ∷ hi) below above (Sorted-right lo (x ∷ hi) valid.sorted))
          ∙ rw hit refl in
        let here = slice_eq-eq x.key key hit in
        let (s', run, kept, level, valid', away) =
          remove_present s lo hi x key below above valid f l hit in
        (
          lo ++ hi,
          s',
          run ∙ ap (λ o. Run.ok (not (absent o), s')) (sym there),
          valid',
          taken_out lo hi key below x here there (Sorted-right lo (x ∷ hi) valid.sorted),
          level,
        )
  ]

module _ (s : SkipList) (es : List Entry) (key : Bytes) (valid : IsValid s es) where
  abbrev lo : List Entry
  lo = before key es

  abbrev hi : List Entry
  hi = since key es

  halves : IsValid s (lo ++ hi)
  halves = subst (IsValid s) (sym (before-since key es)) valid

  short : length lo ≤ length es
  short =
      omega (arith, length-append (before key es) (since key es), ap length (before-since key es))

  -- A lookup in a well-formed map returns the value of the key's entry, or none: it ends with fuel for
  -- two more rounds than there are entries, and dereferences nothing that is not there.
  pub get-lookup : (f : ℕ) → suc (length es) < f → get f s key ≡ Run.ok (lookup es key)
  get-lookup f l =
      get_split f s key lo hi (before-Below key es) (since-Above key es valid.sorted) halves
        (omega (arith, l, short))
      ∙ ap (λ xs. Run.ok (lookup xs key)) (before-since key es)

  -- An insertion into a well-formed map, of a node that is no higher than the map, ends without a fault,
  -- reports whether the key was new, leaves a well-formed map that answers with the value for the key
  -- and for every other key as before, has one entry more if the key was new, and gives the displaced
  -- value to the guard. The fuel passes the number of entries by 3 or more.
  pub insert-Inserts :
      (f top : ℕ) (val : Bytes) → 2 + length es < f → top ≤ s.max_level → Inserts f s es key val top
  insert-Inserts f top val l le =
      subst (λ xs. Inserts f s xs key val top) (before-since key es)
        (insert_split s key lo (before-Below key es) hi f top val (since-Above key es valid.sorted)
          halves (omega (arith, l, short)) le)

  -- A removal from a well-formed map ends without a fault, reports whether the key was there, and
  -- leaves a well-formed map that has no value for the key, answers for every other key as before, and
  -- has one entry less if the key was there. The fuel passes the number of entries by 3 or more.
  pub remove-Removes : (f : ℕ) → 2 + length es < f → Removes f s es key
  remove-Removes f l =
      subst (λ xs. Removes f s xs key) (before-since key es)
        (remove_split s key lo (before-Below key es) hi f (since-Above key es valid.sorted) halves
          (omega (arith, l, short)))
