-- ===== src/Skiplist/Search/Finds.antt =====
-- `find`: it ends, and returns the neighbours of the key on every level.
use mathlib.Core.List.{append_assoc}
use zerokv.Prelude.{
  lt_suc, ℕ, zero, suc, ◌+◌, ◌<◌, ◌≤◌, ◌≡◌, refl, sym, ap, subst, ◌∙◌, true, false, List, [], ◌∷◌,
  ◌++◌, length, length-append, All, arith, inl, inr,
}
use zerokv.Index.{Bytes}
use zerokv.Skiplist.Heap.{Heap, Run}
use zerokv.Skiplist.Heap.Writes.{Tall, link-Tall}
use zerokv.Skiplist.Chains.{
  last, last-append, Distinct, Distinct-drop, Distinct-left, Chain, Chain-same, Chain-until_last,
  All-imp, Chain-append, All-right, All-left, last-All,
}
use zerokv.Skiplist.Entries.{Entry, ids, ids-zero, length-ids, ids-IsDown}
use zerokv.Skiplist.Layout.{stops, first, Layout, Below, Above, Lane, Layout-Lane, entries-right}
use zerokv.Skiplist.Search.{SkipList, Tower, at, Found, walk, descend, find, matches}
use zerokv.Skiplist.Search.Gaps.{Loose, Loose-Chain, Loose-right, Loose-same, IsLocal}
use zerokv.Skiplist.Search.Walks.{Seen, on, walk_lem}
use zerokv.Skiplist.Search.Matches.{two, hits, at-same, at-other, matches-first, retry_once}

module _ (key : Bytes) (head tail : ℕ) (lo ds hi : List Entry) where
  -- How the links of a level run: through the nodes before the key, over the marked ones.
  abbrev pub Linked : ℕ → Heap → Type 0
  Linked level h =
      Loose (on level h) head (ids level lo) (ids level ds) (ids level hi ++ stops tail)

  abbrev pub Clean : ℕ → Heap → Type 0
  Clean level h = Chain (on level h) head (ids level lo ++ (ids level hi ++ stops tail))

  Tall-seen :
      (level : ℕ) (h : Heap) (us : List ℕ)
      → All (Seen level h.node key true) us
      → All (Tall h.node level) us
  Tall-seen level h us = All-imp _ _ (λ x s. (s.0, s.1, s.2)) us

  level_core :
      (level f : ℕ) (h : Heap) (us vs dl : List ℕ) (y z : ℕ) (ws : List ℕ)
      → suc (length vs + length dl) < f
      → Tall h.node level head
      → All (Seen level h.node key true) (us ++ vs)
      → All (Tall h.node level) dl
      → Seen level h.node key false y
      → Distinct (head ∷ (us ++ vs) ++ (dl ++ y ∷ z ∷ ws))
      → Loose (on level h) head (us ++ vs) dl (y ∷ z ∷ ws)
      → (h' : Heap) × (walk f h key level (last head us) (on level h (last head us)).0
          ≡ Run.ok (last head (us ++ vs), y, h'))
        × IsLocal (last head (us ++ vs)) level h h'
        × Chain (on level h') head ((us ++ vs) ++ y ∷ z ∷ ws)
  level_core level f h us vs dl y z ws l tall seen dead after d linked =
      let (h', run, near, chain) =
        walk_lem level vs dl f h key (last head us) y z ws l
          (last-All _ head us tall (Tall-seen level h us (All-left _ us vs seen)))
          (All-right _ us vs seen) dead after
          (Distinct-drop head us (vs ++ (dl ++ y ∷ z ∷ ws))
            (subst (λ xs. Distinct (head ∷ xs)) (append_assoc us vs _) d))
          (Loose-right (on level h) head us vs dl (y ∷ z ∷ ws) linked) in
      let same = last-append head us vs in
      (
        h',
        run ∙ ap (λ q. Run.ok (q, y, h')) (sym same),
        subst (λ q. IsLocal q level h h') (sym same) near,
        Chain-append (on level h') head (us ++ vs) (y ∷ z ∷ ws)
            (Chain-until_last (on level h) (on level h') head (us ++ vs)
              (λ x e. near.other_node x level (λ k. e (k ∙ sym same)))
              (Distinct-left (head ∷ us ++ vs) (dl ++ y ∷ z ∷ ws) d)
              (Loose-Chain (on level h) head (us ++ vs) dl (y ∷ z ∷ ws) linked))
            (subst (λ q. Chain (on level h') q (y ∷ z ∷ ws)) (sym same) chain),
      )

  -- One level of the search, from a node that the level above led to.
  level_lem :
      (level f : ℕ) (h : Heap) (us vs : List ℕ)
      → suc (length lo + length ds) < f
      → Lane level h.node key head tail lo ds hi
      → Linked level h
      → ids level lo ≡ us ++ vs
      → (h' : Heap) × (walk f h key level (last head us) (on level h (last head us)).0
          ≡ Run.ok (last head (ids level lo), first tail (ids level hi), h'))
        × IsLocal (last head (ids level lo)) level h h'
        × Clean level h'
  level_lem level f h us vs l lane linked e =
      let (z, ws, t) = two tail (ids level hi) in
      rw (e, t)
        (level_core level f h us vs (ids level ds) (first tail (ids level hi)) z ws
          (omega
            (arith, l, ap length e, length-append us vs, length-ids level lo, length-ids level ds))
          lane.tall_head (rw e at lane.before) lane.dead lane.after (rw (e, t) at lane.distinct)
          (rw (e, t) at linked))

  unfoldable pub Reach : ℕ → ℕ → Type 0
  Reach zero p = Unit
  Reach (suc level) p =
      (us : List ℕ) × (vs : List ℕ) × (ids level lo ≡ us ++ vs) × (p ≡ last head us)

  -- What the levels below `n` of a search leave.
  pub record IsFound (n : ℕ) (h : Heap) (ps ss : Tower) (r : Found) : Type 0 where
    pub node : r.heap.node ≡ h.node
    pub next : r.heap.next ≡ h.next
    pub preds : (l : ℕ) → l < n → r.preds l ≡ last head (ids l lo)
    pub succs : (l : ℕ) → l < n → r.succs l ≡ first tail (ids l hi)
    pub preds_kept : (l : ℕ) → n ≤ l → r.preds l ≡ ps l
    pub succs_kept : (l : ℕ) → n ≤ l → r.succs l ≡ ss l
    pub clean : (l : ℕ) → l < n → Clean l r.heap
    pub links_kept : (a l : ℕ) → n ≤ l → r.heap.links a l ≡ h.links a l

  pub reach : (level : ℕ) → Reach level (last head (ids level lo))
  unfolding Reach
  reach zero = tt
  reach (suc level) =
      let down = ids-IsDown level lo in (down.before, down.after, down.split, sym (down.same head))

  pub Tall-at :
      (level : ℕ) (h : Heap) (us vs : List ℕ)
      → Lane level h.node key head tail lo ds hi
      → ids level lo ≡ us ++ vs
      → Tall h.node level (last head us)
  Tall-at level h us vs lane e =
      last-All _ head us lane.tall_head
        (Tall-seen level h us (All-left _ us vs (rw e at lane.before)))

  -- A level searched, and then the levels below it.
  level_IsFound :
      (level : ℕ) (h h' : Heap) (ps ss : Tower) (p y : ℕ) (r : Found)
      → p ≡ last head (ids level lo)
      → y ≡ first tail (ids level hi)
      → IsLocal p level h h'
      → Clean level h'
      → IsFound level h' (at ps level p) (at ss level y) r
      → IsFound (suc level) h ps ss r
  level_IsFound level h h' ps ss p y r ep ey near clean rest = record {
    node = rest.node ∙ near.node;
    next = rest.next ∙ near.next;
    preds = λ l m. elim (lt_suc l level m) [
      | inl k ↦ rest.preds l k
      | inr k ↦ rw k (rest.preds_kept level (omega arith) ∙ at-same ps level p ∙ ep)
    ];
    succs = λ l m. elim (lt_suc l level m) [
      | inl k ↦ rest.succs l k
      | inr k ↦ rw k (rest.succs_kept level (omega arith) ∙ at-same ss level y ∙ ey)
    ];
    preds_kept = λ l m. rest.preds_kept l (omega arith) ∙ at-other ps level p l (omega arith);
    succs_kept = λ l m. rest.succs_kept l (omega arith) ∙ at-other ss level y l (omega arith);
    clean = λ l m. elim (lt_suc l level m) [
      | inl k ↦ rest.clean l k
      | inr k ↦ rw k (
          Chain-same (on level h') (on level r.heap) head _
            (λ x. rest.links_kept x level (omega arith)) clean)
    ];
    links_kept =
        λ x l m. rest.links_kept x l (omega arith) ∙ near.other_level x l (λ c. omega (arith, c));
  }

  -- The state of a search that has still the levels below `n` to go.
  descend_lem :
      (n f top : ℕ) (h : Heap) (p : ℕ) (ps ss : Tower)
      → n ≤ suc top
      → suc (length lo + length ds) < f
      → Below key lo
      → Above key hi
      → Layout h.node head tail top (lo ++ (ds ++ hi))
      → ((l : ℕ) → l < n → Linked l h)
      → Reach n p
      → (r : Found) × (descend f n h key p ps ss ≡ Run.ok r) × IsFound n h ps ss r
  unfolding descend Reach
  descend_lem zero f top h p ps ss le l b a lay linked reach = (
    record { preds = ps; succs = ss; heap = h },
    refl,
    record {
      node = refl;
      next = refl;
      preds = λ k m. absurd (omega arith);
      succs = λ k m. absurd (omega arith);
      preds_kept = λ k m. refl;
      succs_kept = λ k m. refl;
      clean = λ k m. absurd (omega arith);
      links_kept = λ x k m. refl;
    },
  )
  descend_lem (suc level) f top h p ps ss le l b a lay linked (us, vs, e, q) =
      let lane = Layout-Lane level key lo ds hi (omega arith) b a lay in
      let (h', run, near, clean) =
        level_lem level f h us vs l lane (linked level (omega arith)) e in
      let lay' = subst (λ n. Layout n head tail top (lo ++ (ds ++ hi))) (sym near.node) lay in
      let p' = last head (ids level lo) in
      let y = first tail (ids level hi) in
      let (r, go, rest) =
        descend_lem level f top h' p' (at ps level p') (at ss level y) (omega arith) l b a lay'
          (λ k m.
            Loose-same (on k h) (on k h') head _ _ _
              (λ x. near.other_level x k (λ c. omega (arith, c))) (linked k (omega arith)))
          (reach level) in
      (
        r,
        rw (q, link-Tall h (last head us) level (Tall-at level h us vs lane e), run) go,
        level_IsFound level h h' ps ss p' y r refl refl near clean rest,
      )

  matches_lem :
      (h : Heap) (top : ℕ)
      → Layout h.node head tail top (lo ++ (ds ++ hi))
      → matches h (first tail (ids 0 hi)) key ≡ Run.ok (hits hi key)
  matches_lem h top lay = rw (ids-zero hi) (
      matches-first h key tail hi lay.tail_node
        (entries-right _ ds hi (entries-right _ lo _ lay.nodes)))

  -- A search whose fuel passes the number of nodes before the key by 2 or more ends, and nothing
  -- that it dereferences is missing.
  pub find_lem :
      (f : ℕ) (s : SkipList) (h : Heap) (ps ss : Tower)
      → s.head ≡ head
      → suc (length lo + length ds) < f
      → Below key lo
      → Above key hi
      → Layout h.node head tail s.max_level (lo ++ (ds ++ hi))
      → ((l : ℕ) → l ≤ s.max_level → Linked l h)
      → (r : Found) × (find f s h key ps ss ≡ Run.ok (hits hi key, r))
        × IsFound (suc s.max_level) h ps ss r
  unfolding find Reach
  find_lem f s h ps ss eh l b a lay linked =
      let (r, run, found) =
        descend_lem (suc s.max_level) f s.max_level h head ps ss (omega arith) l b a lay
          (λ k m. linked k (omega arith)) ([], ids s.max_level lo, refl, refl) in
      let lay' =
        subst (λ n. Layout n head tail s.max_level (lo ++ (ds ++ hi))) (sym found.node) lay in
      (
        r,
        rw
            (
              retry_once f f s h key ps ss r (omega arith) (rw eh run),
              found.succs 0 (omega arith),
              matches_lem r.heap s.max_level lay',
            )
            refl,
        found,
      )
