-- ===== src/Skiplist/Layout.antt =====
-- The nodes of a map in memory, and what a search for a key sees of them on each level.
use mathlib.Core.List.{append_assoc}
use zerokv.Prelude.{
  ℕ, ◌≤◌, ◌<◌, ◌≡◌, ◌≢◌, refl, ◌∙◌, ap, subst, Bool, true, false, Option, some, List, [], ◌∷◌, ◌++◌,
  All, arith,
}
use zerokv.Index.{Bytes}
use zerokv.Arena.Kv.{slice_eq}
use zerokv.Skiplist.Keys.{BoundKey, slice_lt, key_lt, key_eq}
use zerokv.Skiplist.Keys.Order.{as_bytes-new_key}
use zerokv.Skiplist.Heap.{Node, max_height, sentinel}
use zerokv.Skiplist.Heap.Writes.{Tall}
use zerokv.Skiplist.Chains.{Apart, Distinct}
use zerokv.Skiplist.Entries.{
  Entry, node_of, addrs, ids, ids-append, All-level, All-ids, Distinct-ids,
}
use zerokv.Skiplist.Search.Walks.{Seen}

-- The tail, and the null pointer that it links to.
abbrev pub stops : ℕ → List ℕ
stops tail = tail ∷ 0 ∷ []

abbrev pub first : ℕ → List ℕ → ℕ
first d [] = d
first d (x ∷ xs) = x

pub record Layout (node : ℕ → Option Node) (head tail top : ℕ) (es : List Entry) : Type 0 where
  pub head_node : node head ≡ some (sentinel BoundKey.neg_inf)
  pub tail_node : node tail ≡ some (sentinel BoundKey.pos_inf)
  pub nodes : All (λ e. node e.addr ≡ some (node_of e)) es
  pub tops : All (λ e. e.top ≤ top) es
  pub low : top < max_height
  pub distinct : Distinct (head ∷ addrs es ++ stops tail)

-- Keys before the target, and keys that are not.
abbrev pub Below : Bytes → List Entry → Type 0
Below key = All (λ e. slice_lt e.key key ≡ true)

abbrev pub Above : Bytes → List Entry → Type 0
Above key = All (λ e. slice_lt e.key key ≡ false)

pub entries-left : (P : Entry → Type 0) (xs ys : List Entry) → All P (xs ++ ys) → All P xs
entries-left P [] ys h = tt
entries-left P (x ∷ xs) ys h = (h.0, entries-left P xs ys h.1)

pub entries-right : (P : Entry → Type 0) (xs ys : List Entry) → All P (xs ++ ys) → All P ys
entries-right P [] ys h = h
entries-right P (x ∷ xs) ys h = entries-right P xs ys h.1

pub entries-zip :
    (P Q : Entry → Type 0) (xs : List Entry) → All P xs → All Q xs → All (λ e. P e × Q e) xs
entries-zip P Q [] h k = tt
entries-zip P Q (x ∷ xs) h k = ((h.0, k.0), entries-zip P Q xs h.1 k.1)

pub key_lt-entry : (e : Entry) (key : Bytes) → key_lt (node_of e).key key ≡ slice_lt e.key key
unfolding key_lt
key_lt-entry e key = ap (λ k. slice_lt k key) (as_bytes-new_key e.key)

pub key_eq-entry : (e : Entry) (key : Bytes) → key_eq (node_of e).key key ≡ slice_eq e.key key
unfolding key_eq
key_eq-entry e key = ap (λ k. slice_eq k key) (as_bytes-new_key e.key)

first-All : (P : ℕ → Type 0) (d : ℕ) (xs : List ℕ) → P d → All P xs → P (first d xs)
first-All P d [] hd h = hd
first-All P d (x ∷ xs) hd h = h.0

-- A level's nodes as a search for `key` sees them.
pub record Lane (level : ℕ) (node : ℕ → Option Node) (key : Bytes) (head tail : ℕ)
    (lo ds hi : List Entry) : Type 0 where
  pub tall_head : Tall node level head
  pub before : All (Seen level node key true) (ids level lo)
  pub dead : All (Tall node level) (ids level ds)
  pub after : Seen level node key false (first tail (ids level hi))
  pub distinct : Distinct (head ∷ ids level lo ++ (ids level ds ++ (ids level hi ++ stops tail)))

ids-append₃ :
    (level tail : ℕ) (lo ds hi : List Entry)
    → ids level (lo ++ (ds ++ hi)) ++ stops tail
      ≡ ids level lo ++ (ids level ds ++ (ids level hi ++ stops tail))
ids-append₃ level tail lo ds hi =
    rw (ids-append level lo (ds ++ hi), ids-append level ds hi)
      (append_assoc (ids level lo) (ids level ds ++ ids level hi) (stops tail)
        ∙ ap (λ l. ids level lo ++ l) (append_assoc (ids level ds) (ids level hi) (stops tail)))

module _ (level : ℕ) where
  entry_seen :
      (node : ℕ → Option Node) (key : Bytes) (b : Bool) (es : List Entry)
      → All (λ e. node e.addr ≡ some (node_of e)) es
      → All (λ e. slice_lt e.key key ≡ b) es
      → All (Seen level node key b) (ids level es)
  entry_seen node key b es h k =
      All-level _ _ level (λ e p l. (node_of e, p.0, l, key_lt-entry e key ∙ p.1)) es
        (entries-zip _ _ es h k)

  pub Layout-Lane :
      {node : ℕ → Option Node} {head tail top : ℕ} (key : Bytes) (lo ds hi : List Entry)
      → level ≤ top
      → Below key lo
      → Above key hi
      → Layout node head tail top (lo ++ (ds ++ hi))
      → Lane level node key head tail lo ds hi
  unfolding key_lt
  Layout-Lane {node = node} {head = head} {tail = tail} key lo ds hi le b a l = record {
    tall_head = (_, l.head_node, omega (arith, l.low));
    before = entry_seen node key true lo (entries-left _ lo _ l.nodes) b;
    dead =
        All-level _ _ level (λ e p k. (node_of e, p, k)) ds
          (entries-left _ ds hi (entries-right _ lo _ l.nodes));
    after =
        first-All _ tail (ids level hi) (_, l.tail_node, omega (arith, l.low), refl)
          (entry_seen node key false hi (entries-right _ ds hi (entries-right _ lo _ l.nodes)) a);
    distinct = (
      subst (λ xs. Apart head xs) (ids-append₃ level tail lo ds hi)
          (All-ids (λ x. head ≢ x) level (lo ++ (ds ++ hi)) (stops tail) l.distinct.0),
      subst Distinct (ids-append₃ level tail lo ds hi)
          (Distinct-ids level (lo ++ (ds ++ hi)) (stops tail) l.distinct.1),
    );
  }
