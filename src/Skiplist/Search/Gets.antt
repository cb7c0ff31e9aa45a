-- ===== src/Skiplist/Search/Gets.antt =====
-- `get`: it ends, and answers with the value of the key's node.
use mathlib.Core.List.{append_assoc}
use zerokv.Prelude.{
  ℕ, zero, suc, ◌<◌, ◌≤◌, ◌≡◌, refl, sym, ap, subst, ◌∙◌, true, false, Option, none, some, List, [],
  ◌∷◌, ◌++◌, length, length-append, All, arith, if◌then◌else◌, Bool-cases, inl, inr,
}
use zerokv.Index.{Bytes}
use zerokv.Arena.Kv.{slice_eq}
use zerokv.Skiplist.Heap.{Heap, Run}
use zerokv.Skiplist.Heap.Writes.{Tall, link-Tall, header-some}
use zerokv.Skiplist.Chains.{last, last-append, Chain, Chain-right, All-right}
use zerokv.Skiplist.Entries.{Entry, node_of, ids, ids-zero, length-ids, addrs}
use zerokv.Skiplist.Layout.{first, Layout, Below, Above, Lane, Layout-Lane, entries-right}
use zerokv.Skiplist.Search.{
  SkipList, skip, seek, precedes, matches, answer, value_of, get_levels, get,
}
use zerokv.Skiplist.Search.Walks.{Seen, on, Seen-precedes}
use zerokv.Skiplist.Search.Matches.{two, hits, matches-first}
use zerokv.Skiplist.Search.Finds.{Clean, Reach, reach, Tall-at}

-- The value of the first entry, if it has the key.
abbrev pub hit_value : List Entry → Bytes → Option Bytes
hit_value [] key = none
hit_value (e ∷ es) key = if slice_eq e.key key then some e.value else none

module _ (level : ℕ) where
  skip-unmarked :
      (f : ℕ) (h : Heap) (c z : ℕ)
      → Tall h.node level c
      → on level h c ≡ (z, false)
      → skip (suc f) h level c ≡ Run.ok (c, z)
  unfolding skip
  skip-unmarked f h c z t e =
      rw (link-Tall h c level t) (rw (ap (λ r. r.1) e) (ap (λ r. Run.ok (c, r.0)) e))

  seek-stop :
      (f : ℕ) (h : Heap) (key : Bytes) (p y z : ℕ)
      → Seen level h.node key false y
      → on level h y ≡ (z, false)
      → seek (suc (suc f)) h key level p y ≡ Run.ok (p, y)
  unfolding seek precedes
  seek-stop f h key p y z s e =
      rw (skip-unmarked f h y z (s.0, s.1, s.2) e) (rw (Seen-precedes level h key false y s) refl)

  seek-go :
      (f : ℕ) (h : Heap) (key : Bytes) (p c z : ℕ)
      → Seen level h.node key true c
      → on level h c ≡ (z, false)
      → seek (suc (suc f)) h key level p c ≡ seek (suc f) h key level c z
  unfolding seek precedes
  seek-go f h key p c z s e =
      rw (skip-unmarked f h c z (s.0, s.1, s.2) e) (rw (Seen-precedes level h key true c s) refl)

  seek_lem :
      (vs : List ℕ) (f : ℕ) (h : Heap) (key : Bytes) (p y z : ℕ) (ws : List ℕ)
      → suc (length vs) < f
      → All (Seen level h.node key true) vs
      → Seen level h.node key false y
      → Chain (on level h) p (vs ++ y ∷ z ∷ ws)
      → seek f h key level p (on level h p).0 ≡ Run.ok (last p vs, y)
  seek_lem vs zero h key p y z ws l t s c = absurd (omega arith)
  seek_lem vs (suc zero) h key p y z ws l t s c = absurd (omega arith)
  seek_lem [] (suc (suc f)) h key p y z ws l t s c = rw c.0 (seek-stop f h key p y z s c.1.0)
  seek_lem (v ∷ []) (suc (suc f)) h key p y z ws l t s c = rw c.0 (
      seek-go f h key p v y t.0 c.1.0
      ∙ sym (ap (λ r. seek (suc f) h key level v r.0) c.1.0)
      ∙ seek_lem [] (suc f) h key v y z ws (omega arith) t.1 s c.1)
  seek_lem (v ∷ w ∷ vs) (suc (suc f)) h key p y z ws l t s c = rw c.0 (
      seek-go f h key p v w t.0 c.1.0
      ∙ sym (ap (λ r. seek (suc f) h key level v r.0) c.1.0)
      ∙ seek_lem (w ∷ vs) (suc f) h key v y z ws (omega arith) t.1 s c.1)

value_lem :
    (h : Heap) (e : Entry)
    → h.node e.addr ≡ some (node_of e)
    → value_of h e.addr ≡ Run.ok (some e.value)
unfolding value_of
value_lem h e n = rw (header-some h e.addr (node_of e) n) refl

-- The answer where the bottom level ended.
answer_lem :
    (h : Heap) (key : Bytes) (tail z : ℕ) (es : List Entry)
    → matches h (first tail (addrs es)) key ≡ Run.ok (hits es key)
    → All (λ e. h.node e.addr ≡ some (node_of e)) es
    → h.links (first tail (addrs es)) 0 ≡ (z, false)
    → answer h key (first tail (addrs es)) ≡ Run.ok (hit_value es key)
unfolding answer
answer_lem h key tail z [] m n e = rw m refl
answer_lem h key tail z (x ∷ es) m n e = elim (Bool-cases (slice_eq x.key key)) [
  | inl k ↦
      rw (m, k)
        (rw (link-Tall h x.addr 0 (node_of x, n.0, omega arith))
          (rw (ap (λ r. r.1) e) (value_lem h x n.0)))
  | inr k ↦ rw (m, k) refl
]

module _ (key : Bytes) (head tail : ℕ) (lo hi : List Entry) where
  level_seek :
      (level f : ℕ) (h : Heap) (us vs : List ℕ)
      → suc (length lo) < f
      → Lane level h.node key head tail lo [] hi
      → Clean key head tail lo [] hi level h
      → ids level lo ≡ us ++ vs
      → seek f h key level (last head us) (on level h (last head us)).0
        ≡ Run.ok (last head (ids level lo), first tail (ids level hi))
  level_seek level f h us vs l lane clean e =
      let (z, ws, t) = two tail (ids level hi) in
      rw (e, last-append head us vs)
        (seek_lem level vs f h key (last head us) (first tail (ids level hi)) z ws
          (omega (arith, l, ap length e, length-append us vs, length-ids level lo))
          (All-right _ us vs (rw e at lane.before)) lane.after
          (Chain-right (on level h) head us (vs ++ first tail (ids level hi) ∷ z ∷ ws)
            (subst (Chain (on level h) head) (append_assoc us vs _) (rw (e, t) at clean))))

  next_link :
      (level : ℕ) (h : Heap)
      → Clean key head tail lo [] hi level h
      → (z : ℕ) × (on level h (first tail (ids level hi)) ≡ (z, false))
  next_link level h clean =
      let (z, ws, t) = two tail (ids level hi) in
      (
        z,
        (Chain-right (on level h) head (ids level lo) (first tail (ids level hi) ∷ z ∷ ws)
            (rw t at clean)).1.0,
      )

  -- The levels down from one that was reached on the way to the key.
  get_levels_lem :
      (level f top : ℕ) (h : Heap) (p : ℕ)
      → level ≤ top
      → suc (length lo) < f
      → Below key lo
      → Above key hi
      → Layout h.node head tail top (lo ++ hi)
      → ((l : ℕ) → l ≤ level → Clean key head tail lo [] hi l h)
      → Reach key head tail lo [] hi (suc level) p
      → get_levels f level h key p ≡ Run.ok (hit_value hi key)
  unfolding get_levels Reach
  get_levels_lem zero f top h p le l b a lay clean (us, vs, e, q) =
      let lane = Layout-Lane 0 key lo [] hi le b a lay in
      let (z, k) = next_link 0 h (clean 0 (omega arith)) in
      let nodes = entries-right _ lo hi lay.nodes in
      let bottom = ids-zero hi in
      rw
        (
          q,
          link-Tall h (last head us) 0 (Tall-at key head tail lo [] hi 0 h us vs lane e),
          level_seek 0 f h us vs l lane (clean 0 (omega arith)) e,
          bottom,
        )
        (answer_lem h key tail z hi (matches-first h key tail hi lay.tail_node nodes) nodes
          (rw bottom at k))
  get_levels_lem (suc level) f top h p le l b a lay clean (us, vs, e, q) =
      let lane = Layout-Lane (suc level) key lo [] hi le b a lay in
      rw
        (
          q,
          link-Tall h (last head us) (suc level)
              (Tall-at key head tail lo [] hi (suc level) h us vs lane e),
          level_seek (suc level) f h us vs l lane (clean (suc level) (omega arith)) e,
        )
        (get_levels_lem level f top h (last head (ids (suc level) lo)) (omega arith) l b a lay
          (λ k m. clean k (omega arith)) (reach key head tail lo [] hi (suc level)))

  -- A lookup whose fuel passes the number of nodes before the key by 2 or more ends.
  pub get_lem :
      (f : ℕ) (s : SkipList)
      → s.head ≡ head
      → suc (length lo) < f
      → Below key lo
      → Above key hi
      → Layout s.heap.node head tail s.max_level (lo ++ hi)
      → ((l : ℕ) → l ≤ s.max_level → Clean key head tail lo [] hi l s.heap)
      → get f s key ≡ Run.ok (hit_value hi key)
  unfolding get Reach
  get_lem f s eh l b a lay clean = rw eh (
      get_levels_lem s.max_level f s.max_level s.heap head (omega arith) l b a lay clean
        ([], ids s.max_level lo, refl, refl))
