-- ===== src/Skiplist/Reach.antt =====
-- What a caller can reach from the head of a map, over the links of any level.
use zerokv.Prelude.{
  ℕ, ◌+◌, ◌≤◌, ◌<◌, ◌≡◌, ◌≢◌, ◌⊎◌, inl, inr, refl, sym, ap, subst, ◌∙◌, true, false, none, some,
  List, [], ◌∷◌, ◌++◌, length, length-append, All, leb, Bool-cases, Option-cases, arith,
}
use zerokv.Index.{Bytes}
use zerokv.Arena.Kv.{slice_eq}
use zerokv.Skiplist.Heap.{Heap, Run, Ref, header, link}
use zerokv.Skiplist.Heap.Writes.{header-some}
use zerokv.Skiplist.Chains.{last, Apart, Chain, last-append, All-imp}
use zerokv.Skiplist.Entries.{Entry, node_of, addrs, ids, All-ids}
use zerokv.Skiplist.Layout.{stops, Below, Above}
use zerokv.Skiplist.Search.{Garbage, SkipList}
use zerokv.Skiplist.Search.Walks.{on}
use zerokv.Skiplist.Search.Gets.{hit_value}
use zerokv.Skiplist.Valid.{
  IsValid, before, since, before-since, before-Below, since-Above, Sorted-right,
}
use zerokv.Skiplist.Valid.Lookups.{lookup, hit_value-lookup}
use zerokv.Skiplist.Ops.{remove}
use zerokv.Skiplist.Ops.Removes.{remove_present}

-- A node is reached from the head over links of nodes that are reached, marked or not.
pub data Reachable (s : SkipList) : ℕ → Type 0 where
  at_head : Reachable s s.head
  along :
      (p l : ℕ) (v : Ref)
      → Reachable s p
      → p ≢ 0
      → l ≤ s.max_level
      → link s.heap p l ≡ Run.ok v
      → Reachable s v.0

abbrev In : ℕ → List ℕ → Type 0
In a [] = ⊥
In a (x ∷ xs) = (a ≡ x) ⊎ In a xs

All-In : (P : ℕ → Type 0) (xs : List ℕ) (a : ℕ) → All P xs → In a xs → P a
All-In P [] a h i = absurd i
All-In P (x ∷ xs) a h (inl e) = subst P (sym e) h.0
All-In P (x ∷ xs) a h (inr i) = All-In P xs a h.1 i

All-self : (xs : List ℕ) → All (λ a. In a xs) xs
All-self [] = tt
All-self (x ∷ xs) = (inl refl, All-imp _ _ (λ a i. inr i) xs (All-self xs))

-- The links of a chain lead into the chain.
In-next :
    (g : ℕ → Ref) (q p : ℕ) (xs : List ℕ)
    → Chain g q xs
    → In p (q ∷ xs)
    → p ≢ last q xs
    → In (g p).0 xs
In-next g q p [] c (inl e) n = absurd (n e)
In-next g q p [] c (inr i) n = absurd i
In-next g q p (x ∷ xs) c (inl e) n = inl (ap (λ b. (g b).0) e ∙ ap (λ r. r.0) c.0)
In-next g q p (x ∷ xs) c (inr i) n = inr (In-next g x p xs c.1 i n)

fault-ok : (v : Ref) → ¬ (Run.fault ≡ Run.ok v)
fault-ok v e = cc

link_fault :
    (h : Heap) (e : Entry) (l : ℕ) (v : Ref)
    → h.node e.addr ≡ some (node_of e)
    → leb l e.top ≡ false
    → ¬ (link h e.addr l ≡ Run.ok v)
unfolding link
link_fault h e l v n k r = fault-ok v (sym (rw (header-some h e.addr (node_of e) n, k) refl) ∙ r)

-- A node with a link at the level is on the level's chain.
In-ids :
    (h : Heap) (l p : ℕ) (v : Ref) (es : List Entry) (ys : List ℕ)
    → All (λ e. h.node e.addr ≡ some (node_of e)) es
    → link h p l ≡ Run.ok v
    → In p (addrs es ++ ys)
    → In p (ids l es ++ ys)
In-ids h l p v [] ys n r i = i
In-ids h l p v (e ∷ es) ys n r (inl k) = elim (Bool-cases (leb l e.top)) [
  | inl m ↦ rw m (inl k)
  | inr m ↦ absurd (link_fault h e l v n.0 m (subst (λ b. link h b l ≡ Run.ok v) k r))
]
In-ids h l p v (e ∷ es) ys n r (inr i) = elim (Bool-cases (leb l e.top)) [
  | inl m ↦ rw m (inr (In-ids h l p v es ys n.1 r i))
  | inr m ↦ rw m (In-ids h l p v es ys n.1 r i)
]

ok-injective : (a b : Ref) → Run.ok a ≡ Run.ok b → a ≡ b
ok-injective a b e = cc

header_fault : (h : Heap) (p : ℕ) → h.node p ≡ none → header h p ≡ Run.fault
unfolding header
header_fault h p e = rw e refl

-- What a link returns is what the node links to.
link-links : (h : Heap) (p l : ℕ) (v : Ref) → link h p l ≡ Run.ok v → h.links p l ≡ v
unfolding link
link-links h p l v r = elim (Option-cases (h.node p)) [
  | inl e ↦ absurd (fault-ok v (sym (rw (header_fault h p e) refl) ∙ r))
  | inr (n, e) ↦ elim (Bool-cases (leb l n.top_level)) [
    | inl k ↦ ok-injective (h.links p l) v (sym (rw (header-some h p n e, k) refl) ∙ r)
    | inr k ↦ absurd (fault-ok v (sym (rw (header-some h p n e, k) refl) ∙ r))
  ]
]

-- The last of a level is the null pointer.
last-stops : (q tail : ℕ) (xs : List ℕ) → last q (xs ++ stops tail) ≡ 0
last-stops q tail xs = last-append q xs (stops tail)

module _ (s : SkipList) (es : List Entry) (valid : IsValid s es) where
  abbrev listed : List ℕ
  listed = s.head ∷ addrs es ++ stops valid.tail

  In-listed : (l a : ℕ) → In a (ids l es ++ stops valid.tail) → In a listed
  In-listed l a =
      All-In (λ b. In b listed) (ids l es ++ stops valid.tail) a
        (All-ids (λ b. In b listed) l es (stops valid.tail) (All-self listed).1)

  In-level :
      (p l : ℕ) (v : Ref)
      → link s.heap p l ≡ Run.ok v
      → In p listed
      → In p (s.head ∷ ids l es ++ stops valid.tail)
  In-level p l v r (inl e) = inl e
  In-level p l v r (inr i) = inr (In-ids s.heap l p v es (stops valid.tail) valid.layout.nodes r i)

  -- Only the head, the nodes of the entries, the tail and null are reached.
  Reachable-In : (a : ℕ) → Reachable s a → In a listed
  Reachable-In a at_head = inl refl
  Reachable-In a (along p l v reach n le r) = In-listed l v.0 (
      subst (λ w. In w.0 (ids l es ++ stops valid.tail)) (link-links s.heap p l v r)
        (In-next (on l s.heap) s.head p (ids l es ++ stops valid.tail) (valid.linked l le)
          (In-level p l v r (Reachable-In p reach))
          (λ e. n (e ∙ last-stops s.head valid.tail (ids l es)))))

  pub unreachable : (x : ℕ) → Apart x listed → ¬ Reachable s x
  unreachable x away r = All-In (λ b. x ≢ b) listed x away (Reachable-In x r) refl

-- A key whose entry is the first that is not before it.
remove_first :
    (s : SkipList) (lo hi : List Entry) (key v : Bytes) (f : ℕ)
    → Below key lo
    → Above key hi
    → IsValid s (lo ++ hi)
    → 2 + length lo < f
    → hit_value hi key ≡ some v
    → (s' : SkipList) × (x : ℕ) × (remove f s key ≡ Run.ok (true, s'))
      × (s'.retired ≡ Garbage.a_node x ∷ s.retired)
      × ¬ Reachable s' x
remove_first s lo [] key v f b a valid l e = absurd (clash e)
  where
    clash : ¬ (none ≡ some v)
    clash c = cc
remove_first s lo (x ∷ hi) key v f b a valid l e = elim (Bool-cases (slice_eq x.key key)) [
  | inl k ↦
      let (s', run, kept, level, valid', away) = remove_present s lo hi x key b a valid f l k in
      (s', x.addr, run, kept, unreachable s' (lo ++ hi) valid' x.addr away)
  | inr k ↦ absurd (clash (rw k at e))
]
  where
    clash : ¬ (none ≡ some v)
    clash c = cc

-- What a removal of a key that is there hands to the guard, from a well-formed map, is a node that
-- no search reaches any more: no walk over links from the head comes to it, on whatever levels. The
-- fuel passes the number of entries by 3 or more.
pub remove-Reachable :
    (s : SkipList) (es : List Entry) (key v : Bytes) (f : ℕ)
    → IsValid s es
    → 2 + length es < f
    → lookup es key ≡ some v
    → (s' : SkipList) × (x : ℕ) × (remove f s key ≡ Run.ok (true, s'))
      × (s'.retired ≡ Garbage.a_node x ∷ s.retired)
      × ¬ Reachable s' x
remove-Reachable s es key v f valid l e =
    let lo = before key es in
    let hi = since key es in
    let whole = before-since key es in
    let above = since-Above key es valid.sorted in
    let halves = subst (IsValid s) (sym whole) valid in
    remove_first s lo hi key v f (before-Below key es) above halves
      (omega (arith, l, length-append lo hi, ap length whole))
      (hit_value-lookup key lo hi (before-Below key es) above (Sorted-right lo hi halves.sorted)
        ∙ ap (λ xs. lookup xs key) whole
        ∙ e)
