-- ===== src/Skiplist/Valid.antt =====
-- When a map is well formed: which entries it holds, and where a key belongs among them.
pub mod Lookups
pub mod Changes
use zerokv.Prelude.{
  ℕ, ◌≤◌, ◌<◌, ◌≡◌, refl, ap, Bool, true, false, Option, none, some, List, [], ◌∷◌, ◌++◌, length,
  All, All-append, if◌then◌else◌, Bool-cases, inl, inr,
}
use zerokv.Index.{Bytes}
use zerokv.Arena.Kv.{slice_eq}
use zerokv.Skiplist.Keys.{slice_lt}
use zerokv.Skiplist.Keys.Order.{slice_lt_trans}
use zerokv.Skiplist.Chains.{Chain}
use zerokv.Skiplist.Entries.{Entry, addrs, ids}
use zerokv.Skiplist.Layout.{stops, Layout, Below, Above, entries-left, entries-right}
use zerokv.Skiplist.Search.{SkipList}
use zerokv.Skiplist.Search.Walks.{on}

abbrev pub Sorted : List Entry → Type 0
Sorted [] = Unit
Sorted (e ∷ es) = All (λ d. slice_lt e.key d.key ≡ true) es × Sorted es

-- The map holds the entries: their keys ascend, each level is one chain without a mark from the
-- head through the nodes that reach it to the tail, and no address past `next` is in use.
pub record IsValid (s : SkipList) (es : List Entry) : Type 0 where
  pub tail : ℕ
  pub layout : Layout s.heap.node s.head tail s.max_level es
  pub fresh : All (λ a. a < s.heap.next) (s.head ∷ addrs es ++ stops tail)
  pub sorted : Sorted es
  pub linked : (l : ℕ) → l ≤ s.max_level → Chain (on l s.heap) s.head (ids l es ++ stops tail)
  pub len : s.len ≡ length es

-- The entries before a key, and the others.
abbrev pub before : Bytes → List Entry → List Entry
before key [] = []
before key (e ∷ es) = let rest = before key es in if slice_lt e.key key then e ∷ rest else []

abbrev pub since : Bytes → List Entry → List Entry
since key [] = []
since key (e ∷ es) = let rest = since key es in if slice_lt e.key key then rest else e ∷ es

pub before-since : (key : Bytes) (es : List Entry) → before key es ++ since key es ≡ es
before-since key [] = refl
before-since key (e ∷ es) = elim (Bool-cases (slice_lt e.key key)) [
  | inl k ↦ rw k (ap (λ l. e ∷ l) (before-since key es))
  | inr k ↦ rw k refl
]

pub before-Below : (key : Bytes) (es : List Entry) → Below key (before key es)
before-Below key [] = tt
before-Below key (e ∷ es) = elim (Bool-cases (slice_lt e.key key)) [
  | inl k ↦ rw k (k, before-Below key es)
  | inr k ↦ rw k tt
]

-- What follows a key that is not before the target is not either.
after-Above :
    (key : Bytes) (e : Entry) (es : List Entry)
    → slice_lt e.key key ≡ false
    → All (λ d. slice_lt e.key d.key ≡ true) es
    → Above key es
after-Above key e [] k h = tt
after-Above key e (d ∷ es) k h = (
  elim (Bool-cases (slice_lt d.key key)) [
    | inl m ↦ absurd (clash (slice_lt_trans e.key d.key key h.0 m) k)
    | inr m ↦ m
  ],
  after-Above key e es k h.1,
)
  where
    clash : slice_lt e.key key ≡ true → slice_lt e.key key ≡ false → ⊥
    clash a b = cc

pub since-Above : (key : Bytes) (es : List Entry) → Sorted es → Above key (since key es)
since-Above key [] s = tt
since-Above key (e ∷ es) s = elim (Bool-cases (slice_lt e.key key)) [
  | inl k ↦ rw k (since-Above key es s.1)
  | inr k ↦ rw k (k, after-Above key e es k s.0)
]

pub Sorted-left : (xs ys : List Entry) → Sorted (xs ++ ys) → Sorted xs
Sorted-left [] ys s = tt
Sorted-left (x ∷ xs) ys s = (entries-left _ xs ys s.0, Sorted-left xs ys s.1)

pub Sorted-right : (xs ys : List Entry) → Sorted (xs ++ ys) → Sorted ys
Sorted-right [] ys s = s
Sorted-right (x ∷ xs) ys s = Sorted-right xs ys s.1

-- An entry goes between those before its key and those after it.
pub Sorted-middle :
    (xs ys : List Entry) (e : Entry)
    → Sorted (xs ++ ys)
    → Below e.key xs
    → All (λ d. slice_lt e.key d.key ≡ true) ys
    → Sorted (xs ++ e ∷ ys)
Sorted-middle [] ys e s b a = (a, s)
Sorted-middle (x ∷ xs) ys e s b a = (
  All-append _ xs (e ∷ ys) (entries-left _ xs ys s.0) (b.0, entries-right _ xs ys s.0),
  Sorted-middle xs ys e s.1 b.1 a,
)

pub Sorted-without : (xs ys : List Entry) (e : Entry) → Sorted (xs ++ e ∷ ys) → Sorted (xs ++ ys)
Sorted-without [] ys e s = s.1
Sorted-without (x ∷ xs) ys e s = (
  All-append _ xs ys (entries-left _ xs (e ∷ ys) s.0) (entries-right _ xs (e ∷ ys) s.0).1,
  Sorted-without xs ys e s.1,
)
