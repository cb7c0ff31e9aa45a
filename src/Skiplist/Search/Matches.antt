-- ===== src/Skiplist/Search/Matches.antt =====
-- Where a search of the bottom level ends, and the arrays that `find` fills.
use zerokv.Prelude.{
  ℕ, zero, suc, ◌<◌, ◌≤◌, ◌≡◌, refl, ap, Bool, false, some, List, [], ◌∷◌, ◌++◌, All, arith,
  ==_refl, ==_ne,
}
use zerokv.Index.{Bytes}
use zerokv.Arena.Kv.{slice_eq}
use zerokv.Skiplist.Keys.{BoundKey, key_eq}
use zerokv.Skiplist.Heap.{sentinel, Ref, Heap, Run}
use zerokv.Skiplist.Heap.Writes.{header-some}
use zerokv.Skiplist.Chains.{Chain}
use zerokv.Skiplist.Entries.{Entry, node_of, addrs}
use zerokv.Skiplist.Layout.{stops, first, key_eq-entry}
use zerokv.Skiplist.Search.{SkipList, Tower, at, Found, descend, retry_find, matches}
use zerokv.Skiplist.Search.Gaps.{Loose}

-- The neighbours of the key, and the chain that leads past them.
pub two :
    (tail : ℕ) (xs : List ℕ) → (z : ℕ) × (ws : List ℕ) × (xs ++ stops tail ≡ first tail xs ∷ z ∷ ws)
two tail [] = (0, [], refl)
two tail (x ∷ []) = (tail, 0 ∷ [], refl)
two tail (x ∷ y ∷ xs) = (y, xs ++ stops tail, refl)

pub Chain-Loose : (g : ℕ → Ref) (p : ℕ) (vs ys : List ℕ) → Chain g p (vs ++ ys) → Loose g p vs [] ys
Chain-Loose g p [] [] c = tt
Chain-Loose g p [] (y ∷ ys) c = c
Chain-Loose g p (v ∷ vs) ys c = (c.0, Chain-Loose g v vs ys c.1)

-- Whether the first of the entries has the key.
abbrev pub hits : List Entry → Bytes → Bool
hits [] key = false
hits (e ∷ es) key = slice_eq e.key key

pub at-same : (t : Tower) (level p : ℕ) → at t level p level ≡ p
unfolding at
at-same t level p = rw (==_refl level) refl

pub at-other : (t : Tower) (level p l : ℕ) → suc level ≤ l → at t level p l ≡ t l
unfolding at
at-other t level p l h = rw (==_ne l level (λ e. omega (arith, e))) refl

pub matches-first :
    (h : Heap) (key : Bytes) (tail : ℕ) (es : List Entry)
    → h.node tail ≡ some (sentinel BoundKey.pos_inf)
    → All (λ e. h.node e.addr ≡ some (node_of e)) es
    → matches h (first tail (addrs es)) key ≡ Run.ok (hits es key)
unfolding matches key_eq
matches-first h key tail [] e n = rw (header-some h tail _ e) refl
matches-first h key tail (x ∷ es) e n =
    rw (header-some h x.addr (node_of x) n.0) (ap Run.ok (key_eq-entry x key))

pub retry_once :
    (f tries : ℕ) (s : SkipList) (h : Heap) (key : Bytes) (ps ss : Tower) (r : Found)
    → 0 < tries
    → descend f (suc s.max_level) h key s.head ps ss ≡ Run.ok r
    → retry_find f tries s h key ps ss ≡ Run.ok r
unfolding retry_find
retry_once f zero s h key ps ss r l e = absurd (omega arith)
retry_once f (suc tries) s h key ps ss r l e = rw (retry_find, e) refl
