-- ===== src/Skiplist/Entries.antt =====
-- The entries that a map holds in the order of their keys, and the nodes that hold them.
use zerokv.Prelude.{
  ℕ, suc, ◌≤◌, ◌≡◌, refl, ap, true, some, List, [], ◌∷◌, ◌++◌, length, All, leb, leb→le,
  if◌then◌else◌, inl, inr, Bool-cases, arith,
}
use zerokv.Index.{Bytes}
use zerokv.Skiplist.Keys.{BoundKey, new_key}
use zerokv.Skiplist.Heap.{Node}
use zerokv.Skiplist.Chains.{last, Distinct}

pub record Entry : Type 0 where
  pub addr : ℕ
  pub key : Bytes
  pub value : Bytes
  pub top : ℕ

abbrev pub node_of : Entry → Node
node_of e = record { key = BoundKey.fin (new_key e.key); value = some e.value; top_level = e.top }

abbrev pub addrs : List Entry → List ℕ
addrs [] = []
addrs (e ∷ es) = e.addr ∷ addrs es

-- The nodes that are linked at a level.
abbrev pub ids : ℕ → List Entry → List ℕ
ids level [] = []
ids level (e ∷ es) = let rest = ids level es in if leb level e.top then e.addr ∷ rest else rest

pub addrs-append : (xs ys : List Entry) → addrs (xs ++ ys) ≡ addrs xs ++ addrs ys
addrs-append [] ys = refl
addrs-append (x ∷ xs) ys = ap (λ l. x.addr ∷ l) (addrs-append xs ys)

pub ids-append :
    (level : ℕ) (xs ys : List Entry) → ids level (xs ++ ys) ≡ ids level xs ++ ids level ys
ids-append level [] ys = refl
ids-append level (x ∷ xs) ys = elim (Bool-cases (leb level x.top)) [
  | inl e ↦ rw e (ap (λ l. x.addr ∷ l) (ids-append level xs ys))
  | inr e ↦ rw e (ids-append level xs ys)
]

leb_zero : (n : ℕ) → leb 0 n ≡ true
leb_zero n = ground arith

-- Every node is linked at the bottom.
pub ids-zero : (es : List Entry) → ids 0 es ≡ addrs es
ids-zero [] = refl
ids-zero (e ∷ es) = rw (leb_zero e.top) (ap (λ l. e.addr ∷ l) (ids-zero es))

pub length-ids : (level : ℕ) (es : List Entry) → length (ids level es) ≤ length es
length-ids level [] = omega arith
length-ids level (e ∷ es) = elim (Bool-cases (leb level e.top)) [
  | inl k ↦ rw k (omega (arith, length-ids level es))
  | inr k ↦ rw k (omega (arith, length-ids level es))
]

-- What holds of all nodes holds of those on a level.
pub All-ids :
    (P : ℕ → Type 0) (level : ℕ) (es : List Entry) (ys : List ℕ)
    → All P (addrs es ++ ys)
    → All P (ids level es ++ ys)
All-ids P level [] ys h = h
All-ids P level (e ∷ es) ys h = elim (Bool-cases (leb level e.top)) [
  | inl k ↦ rw k (h.0, All-ids P level es ys h.1)
  | inr k ↦ rw k (All-ids P level es ys h.1)
]

pub Distinct-ids :
    (level : ℕ) (es : List Entry) (ys : List ℕ)
    → Distinct (addrs es ++ ys)
    → Distinct (ids level es ++ ys)
Distinct-ids level [] ys h = h
Distinct-ids level (e ∷ es) ys h = elim (Bool-cases (leb level e.top)) [
  | inl k ↦ rw k (All-ids _ level es ys h.0, Distinct-ids level es ys h.1)
  | inr k ↦ rw k (Distinct-ids level es ys h.1)
]

-- What holds of the entries that reach a level.
pub All-level :
    (P : Entry → Type 0) (Q : ℕ → Type 0) (level : ℕ)
    → ((e : Entry) → P e → level ≤ e.top → Q e.addr)
    → (es : List Entry) → All P es
    → All Q (ids level es)
All-level P Q level f [] h = tt
All-level P Q level f (e ∷ es) h = elim (Bool-cases (leb level e.top)) [
  | inl k ↦ rw k (f e h.0 (leb→le level e.top k), All-level P Q level f es h.1)
  | inr k ↦ rw k (All-level P Q level f es h.1)
]

-- The nodes of a level up to the last that also reaches the next level.
pub record IsDown (level : ℕ) (es : List Entry) : Type 0 where
  pub before : List ℕ
  pub after : List ℕ
  pub split : ids level es ≡ before ++ after
  pub same : (p : ℕ) → last p before ≡ last p (ids (suc level) es)

leb-suc : (l n : ℕ) → leb (suc l) n ≡ true → leb l n ≡ true
leb-suc l n h = ground arith

down_skip :
    (level : ℕ) (es : List Entry) (a : ℕ) (us vs : List ℕ)
    → ids level es ≡ us ++ vs
    → ((p : ℕ) → last p us ≡ last p (ids (suc level) es))
    → (us' : List ℕ) × (vs' : List ℕ) × (a ∷ ids level es ≡ us' ++ vs')
      × ((p : ℕ) → last p us' ≡ last p (ids (suc level) es))
down_skip level es a [] vs e s = ([], a ∷ vs, ap (λ l. a ∷ l) e, s)
down_skip level es a (u ∷ us) vs e s = (a ∷ u ∷ us, vs, ap (λ l. a ∷ l) e, s)

pub ids-IsDown : (level : ℕ) (es : List Entry) → IsDown level es
ids-IsDown level [] = record { before = []; after = []; split = refl; same = λ p. refl }
ids-IsDown level (e ∷ es) =
    let rest = ids-IsDown level es in
    elim (Bool-cases (leb (suc level) e.top)) [
      | inl k ↦ record {
        before = e.addr ∷ rest.before;
        after = rest.after;
        split = rw (leb-suc level e.top k) (ap (λ l. e.addr ∷ l) rest.split);
        same = λ p. rw k (rest.same e.addr);
      }
      | inr k ↦ elim (Bool-cases (leb level e.top)) [
        | inl m ↦
            let (us, vs, split, same) =
              down_skip level es e.addr rest.before rest.after rest.split rest.same in
            record { before = us; after = vs; split = rw m split; same = λ p. rw k (same p) }
        | inr m ↦ record {
          before = rest.before;
          after = rest.after;
          split = rw m rest.split;
          same = λ p. rw k (rest.same p);
        }
      ]
    ]
