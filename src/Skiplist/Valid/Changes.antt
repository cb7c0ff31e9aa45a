-- ===== src/Skiplist/Valid/Changes.antt =====
-- The nodes of a map with one entry more, or one less.
use mathlib.Core.List.{append_assoc}
use zerokv.Prelude.{
  ℕ, ◌≤◌, ◌≡◌, ◌≢◌, sym, ◌∙◌, subst, Option, some, List, [], ◌∷◌, ◌++◌, All, All-append,
}
use zerokv.Skiplist.Heap.{Node}
use zerokv.Skiplist.Chains.{
  Apart, Distinct, Distinct-middle, Distinct-without, Apart-middle, All-middle, All-without,
  All-left, All-right,
}
use zerokv.Skiplist.Entries.{Entry, node_of, addrs, addrs-append, ids, ids-append}
use zerokv.Skiplist.Layout.{stops, Layout, entries-left, entries-right}

-- The addresses in use, with those of `hi` apart.
pub addrs_split :
    (tail : ℕ) (lo hi : List Entry)
    → addrs (lo ++ hi) ++ stops tail ≡ addrs lo ++ (addrs hi ++ stops tail)
addrs_split tail lo hi = rw (addrs-append lo hi) (append_assoc (addrs lo) (addrs hi) (stops tail))

pub ids_split :
    (l tail : ℕ) (lo hi : List Entry)
    → ids l (lo ++ hi) ++ stops tail ≡ ids l lo ++ (ids l hi ++ stops tail)
ids_split l tail lo hi = rw (ids-append l lo hi) (append_assoc (ids l lo) (ids l hi) (stops tail))

pub entries-middle :
    (P : Entry → Type 0) (lo hi : List Entry) (e : Entry)
    → P e
    → All P (lo ++ hi)
    → All P (lo ++ e ∷ hi)
entries-middle P lo hi e p h =
    All-append P lo (e ∷ hi) (entries-left P lo hi h) (p, entries-right P lo hi h)

pub entries-without :
    (P : Entry → Type 0) (lo hi : List Entry) (e : Entry) → All P (lo ++ e ∷ hi) → All P (lo ++ hi)
entries-without P lo hi e h =
    All-append P lo hi (entries-left P lo (e ∷ hi) h) (entries-right P lo (e ∷ hi) h).1

module _ (head tail : ℕ) (lo hi : List Entry) (e : Entry) where
  pub used_middle :
      (P : ℕ → Type 0)
      → P e.addr
      → All P (head ∷ addrs (lo ++ hi) ++ stops tail)
      → All P (head ∷ addrs (lo ++ e ∷ hi) ++ stops tail)
  used_middle P p h = (
    h.0,
    subst (All P) (sym (addrs_split tail lo (e ∷ hi))) (
        All-middle P (addrs lo) (addrs hi ++ stops tail) e.addr p
          (subst (All P) (addrs_split tail lo hi) h.1)),
  )

  pub used_without :
      (P : ℕ → Type 0)
      → All P (head ∷ addrs (lo ++ e ∷ hi) ++ stops tail)
      → All P (head ∷ addrs (lo ++ hi) ++ stops tail)
  used_without P h = (
    h.0,
    subst (All P) (sym (addrs_split tail lo hi)) (
        All-without P (addrs lo) (addrs hi ++ stops tail) e.addr
          (subst (All P) (addrs_split tail lo (e ∷ hi)) h.1)),
  )

  Distinct-addrs_middle :
      Apart e.addr (head ∷ addrs (lo ++ hi) ++ stops tail)
      → Distinct (head ∷ addrs (lo ++ hi) ++ stops tail)
      → Distinct (head ∷ addrs (lo ++ e ∷ hi) ++ stops tail)
  Distinct-addrs_middle a d =
      subst (λ xs. Distinct (head ∷ xs)) (sym (addrs_split tail lo (e ∷ hi)))
        (Distinct-middle (head ∷ addrs lo) (addrs hi ++ stops tail) e.addr
          (subst (λ xs. Apart e.addr (head ∷ xs)) (addrs_split tail lo hi) a)
          (subst (λ xs. Distinct (head ∷ xs)) (addrs_split tail lo hi) d))

  Distinct-addrs_without :
      Distinct (head ∷ addrs (lo ++ e ∷ hi) ++ stops tail)
      → Distinct (head ∷ addrs (lo ++ hi) ++ stops tail)
  Distinct-addrs_without d =
      subst (λ xs. Distinct (head ∷ xs)) (sym (addrs_split tail lo hi))
        (Distinct-without (head ∷ addrs lo) (addrs hi ++ stops tail) e.addr
          (subst (λ xs. Distinct (head ∷ xs)) (addrs_split tail lo (e ∷ hi)) d))

  -- The address of an entry is that of no other node, nor null.
  pub Apart-addrs :
      Distinct (head ∷ addrs (lo ++ e ∷ hi) ++ stops tail)
      → Apart e.addr (head ∷ addrs (lo ++ hi) ++ stops tail)
  Apart-addrs d =
      subst (λ xs. Apart e.addr (head ∷ xs)) (sym (addrs_split tail lo hi))
        (Apart-middle (head ∷ addrs lo) (addrs hi ++ stops tail) e.addr
          (subst (λ xs. Distinct (head ∷ xs)) (addrs_split tail lo (e ∷ hi)) d))

-- Nodes at other addresses than a changed one.
nodes_kept :
    (node node' : ℕ → Option Node) (n : ℕ) (es : List Entry)
    → ((a : ℕ) → a ≢ n → node' a ≡ node a)
    → Apart n (addrs es)
    → All (λ e. node e.addr ≡ some (node_of e)) es
    → All (λ e. node' e.addr ≡ some (node_of e)) es
nodes_kept node node' n [] same a h = tt
nodes_kept node node' n (e ∷ es) same a h =
    (same e.addr (λ k. a.0 (sym k)) ∙ h.0, nodes_kept node node' n es same a.1 h.1)

module _ {node node' : ℕ → Option Node} {head tail top : ℕ} (lo hi : List Entry) (e : Entry) where
  pub Layout-middle :
      ((a : ℕ) → a ≢ e.addr → node' a ≡ node a)
      → node' e.addr ≡ some (node_of e)
      → e.top ≤ top
      → Apart e.addr (head ∷ addrs (lo ++ hi) ++ stops tail)
      → Layout node head tail top (lo ++ hi)
      → Layout node' head tail top (lo ++ e ∷ hi)
  Layout-middle same new le a l =
      let away = All-right _ (addrs (lo ++ hi)) (stops tail) a.1 in
      record {
        head_node = same head (λ k. a.0 (sym k)) ∙ l.head_node;
        tail_node = same tail (λ k. away.0 (sym k)) ∙ l.tail_node;
        nodes = entries-middle _ lo hi e new (
            nodes_kept node node' e.addr (lo ++ hi) same
              (All-left _ (addrs (lo ++ hi)) (stops tail) a.1) l.nodes);
        tops = entries-middle _ lo hi e le l.tops;
        low = l.low;
        distinct = Distinct-addrs_middle head tail lo hi e a l.distinct;
      }

module _ {node : ℕ → Option Node} {head tail top : ℕ} (lo hi : List Entry) (e : Entry) where
  pub Layout-without :
      Layout node head tail top (lo ++ e ∷ hi) → Layout node head tail top (lo ++ hi)
  Layout-without l = record {
    head_node = l.head_node;
    tail_node = l.tail_node;
    nodes = entries-without _ lo hi e l.nodes;
    tops = entries-without _ lo hi e l.tops;
    low = l.low;
    distinct = Distinct-addrs_without head tail lo hi e l.distinct;
  }
