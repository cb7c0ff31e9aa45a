-- ===== src/Skiplist/Tests.antt =====
-- Runs of the map on small keys, and the theorems at a map of two entries.
use zerokv.Prelude.{
  ℕ, zero, suc, ◌≤◌, ◌≡◌, ◌≢◌, refl, Bool, true, false, Option, none, some, List, [], ◌∷◌, ◌++◌,
  ◌/◌, arith, ◌==◌, if◌then◌else◌,
}
use zerokv.Index.{Bytes}
use zerokv.Index.Refines.{serve, answers, empty}
use zerokv.Index.Tests.{ops}
use zerokv.Skiplist.Keys.{BoundKey, slice_lt}
use zerokv.Skiplist.Heap.{pack, ptr_of, mark_of, sentinel, Node, Heap, Run, ◌>>=◌, Ref}
use zerokv.Skiplist.Heap.Pointers.{pack-parts}
use zerokv.Skiplist.Chains.{Chain, Distinct}
use zerokv.Skiplist.Entries.{Entry, node_of, ids}
use zerokv.Skiplist.Layout.{stops}
use zerokv.Skiplist.Search.{Garbage, SkipList, get, nulls}
use zerokv.Skiplist.Search.Walks.{on}
use zerokv.Skiplist.Valid.{IsValid}
use zerokv.Skiplist.Valid.Lookups.{lookup}
use zerokv.Skiplist.Ops.{with_max_level, with_capacity_hint, insert_at, remove, drop}
use zerokv.Skiplist.Ops.Starts.{with_capacity_hint-IsValid}
use zerokv.Skiplist.Ops.Drops.{without, owned, drop-frees}
use zerokv.Skiplist.Maps.Whole.{Inserts, Removes, get-lookup, insert-Inserts, remove-Removes}
use zerokv.Skiplist.Reach.{Reachable, remove-Reachable}
use zerokv.Arena.Kv.{slice_eq}
use zerokv.Skiplist.AsMap.{skip_lists, index_answers}
use zerokv.Index

-- Three keys go in, one of them twice; one comes out; and the map is dropped.
abbrev script : Run (Option Bytes × Option Bytes × Option Bytes × Bool × ℕ)
script = do
  s0 ← with_max_level 2
  s1 ← insert_at 6 s0 (5 ∷ []) (50 ∷ []) 1 nulls nulls
  s2 ← insert_at 6 s1.1 (3 ∷ 1 ∷ []) (31 ∷ []) 0 nulls nulls
  s3 ← insert_at 6 s2.1 (9 ∷ []) (90 ∷ []) 2 nulls nulls
  s4 ← insert_at 6 s3.1 (9 ∷ []) (91 ∷ []) 2 nulls nulls
  a ← get 6 s4.1 (9 ∷ [])
  s5 ← remove 6 s4.1 (5 ∷ [])
  b ← get 6 s5.1 (5 ∷ [])
  c ← get 6 s5.1 (3 ∷ 1 ∷ [])
  _ ← drop 6 s5.1
  Run.ok (a, b, c, s5.0, s5.1.len)

abbrev five : Entry
five = record { addr = 3; key = 5 ∷ []; value = 50 ∷ []; top = 1 }

abbrev nine : Entry
nine = record { addr = 4; key = 9 ∷ []; value = 90 ∷ []; top = 0 }

abbrev entries : List Entry
entries = five ∷ nine ∷ []

abbrev two_nodes : ℕ → Option Node
two_nodes a =
    if a == 1
    then some (sentinel BoundKey.neg_inf)
    else if a == 2
    then some (sentinel BoundKey.pos_inf)
    else if a == 3
    then some (node_of five)
    else if a == 4
    then some (node_of nine)
    else none

abbrev two_links : ℕ → ℕ → Ref
two_links a l =
    if a == 1
    then (3, false)
    else if a == 3
    then (if l == 0 then (4, false) else (2, false))
    else if a == 4
    then (2, false)
    else (0, false)

abbrev two : SkipList
two = record {
  head = 1;
  max_level = 1;
  len = 2;
  heap = record { node = two_nodes; links = two_links; next = 5 };
  retired = [];
}

differ : (a b : ℕ) → (a == b) ≡ false → a ≢ b
differ a b h e = ground arith

two-linked : (l : ℕ) → l ≤ 1 → Chain (on l two.heap) two.head (ids l entries ++ stops 2)
two-linked zero h = (refl, (refl, (refl, (refl, tt))))
two-linked (suc zero) h = (refl, (refl, (refl, tt)))
two-linked (suc (suc l)) h = absurd (omega arith)

two-Distinct : Distinct (1 ∷ 3 ∷ 4 ∷ 2 ∷ 0 ∷ [])
two-Distinct = (
  (differ 1 3 refl, (differ 1 4 refl, (differ 1 2 refl, (differ 1 0 refl, tt)))),
  (
    (differ 3 4 refl, (differ 3 2 refl, (differ 3 0 refl, tt))),
    ((differ 4 2 refl, (differ 4 0 refl, tt)), ((differ 2 0 refl, tt), (tt, tt))),
  ),
)

five_nine : slice_lt (5 ∷ []) (9 ∷ []) ≡ true
unfolding slice_lt
five_nine = refl

five_found : lookup entries (5 ∷ []) ≡ some (50 ∷ [])
unfolding slice_eq
five_found = refl

abbrev two-IsValid : IsValid two entries
two-IsValid = record {
  tail = 2;
  layout = record {
    head_node = refl;
    tail_node = refl;
    nodes = (refl, (refl, tt));
    tops = (omega arith, (omega arith, tt));
    low = omega arith;
    distinct = two-Distinct;
  };
  fresh = (omega arith, (omega arith, (omega arith, (omega arith, (omega arith, tt)))));
  sorted = ((five_nine, tt), (tt, tt));
  linked = two-linked;
  len = refl;
}

get-lookup_example : get 4 two (9 ∷ []) ≡ Run.ok (lookup entries (9 ∷ []))
get-lookup_example = get-lookup two entries (9 ∷ []) two-IsValid 4 (omega arith)

insert-Inserts_example : Inserts 5 two entries (7 ∷ []) (70 ∷ []) 1
insert-Inserts_example =
    insert-Inserts two entries (7 ∷ []) two-IsValid 5 1 (70 ∷ []) (omega arith) (omega arith)

remove-Removes_example : Removes 5 two entries (5 ∷ [])
remove-Removes_example = remove-Removes two entries (5 ∷ []) two-IsValid 5 (omega arith)

drop-frees_example :
    (h : Heap) × (drop 5 two ≡ Run.ok h)
    × ((a : ℕ) → h.node a ≡ without (owned 1 2 entries) two_nodes a)
drop-frees_example = drop-frees two entries two-IsValid 5 (omega arith)

with_capacity_hint-IsValid_example :
    (s : SkipList) × (with_capacity_hint (λ n. n / 4) 100 ≡ Run.ok s) × IsValid s []
with_capacity_hint-IsValid_example = with_capacity_hint-IsValid (λ n. n / 4) 100

index_answers_example :
    serve (skip_lists (λ n. n / 4) 7) (Index.new (skip_lists (λ n. n / 4) 7) 3 100) ops
    ≡ some (answers empty ops)
index_answers_example = index_answers (λ n. n / 4) 7 3 100 ops

pack-parts_example : (ptr_of (pack 64 true) ≡ 64) × (mark_of (pack 64 true) ≡ true)
pack-parts_example = pack-parts 64 true refl (omega arith)

remove-Reachable_example :
    (s : SkipList) × (x : ℕ) × (remove 5 two (5 ∷ []) ≡ Run.ok (true, s))
    × (s.retired ≡ Garbage.a_node x ∷ [])
    × ¬ Reachable s x
remove-Reachable_example =
    remove-Reachable two entries (5 ∷ []) (50 ∷ []) 5 two-IsValid (omega arith) five_found
