-- ===== src/Skiplist/Search/Walks.antt =====
-- One level of a search, past keys before the target and over marked nodes.
use zerokv.Prelude.{
  ℕ, zero, suc, ◌+◌, ◌<◌, ◌≤◌, ◌≡◌, refl, sym, ap, subst, ◌∙◌, Bool, true, false, Option, some,
  List, [], ◌∷◌, ◌++◌, length, All, All-append, arith,
}
use zerokv.Index.{Bytes}
use zerokv.Skiplist.Keys.{key_lt}
use zerokv.Skiplist.Heap.{Node, Heap, Run, Ref, write}
use zerokv.Skiplist.Heap.Writes.{
  Tall, header-some, link-Tall, cas-Tall, write-same, write-other_node,
}
use zerokv.Skiplist.Chains.{last, Apart, Distinct, Chain}
use zerokv.Skiplist.Search.{splice, walk, precedes}
use zerokv.Skiplist.Search.Gaps.{
  Gap, Loose, Loose-unmarked, Gap-splice, Gap-marked, IsLocal, IsLocal-refl, IsLocal-trans,
  write-IsLocal,
}

module _ (level : ℕ) where
  abbrev pub on : Heap → ℕ → Ref
  on h a = h.links a level

  splice-unmarked :
      (f : ℕ) (h : Heap) (p c : ℕ)
      → Tall h.node level c
      → (on h c).1 ≡ false
      → splice (suc f) h level p c ≡ Run.ok (c, (on h c).0, h)
  unfolding splice
  splice-unmarked f h p c t e = rw (link-Tall h c level t) (rw e refl)

  splice-marked :
      (f : ℕ) (h : Heap) (p c : ℕ)
      → Tall h.node level p
      → Tall h.node level c
      → on h p ≡ (c, false)
      → (on h c).1 ≡ true
      → splice (suc f) h level p c
        ≡ splice f (write h p level ((on h c).0, false)) level p (on h c).0
  unfolding splice
  splice-marked f h p c tp t e m =
      rw (link-Tall h c level t)
        (rw m (rw (cas-Tall h p level (c, false) ((on h c).0, false) tp e) refl))

  -- The marked nodes after `p` are spliced out, and nothing else changes.
  splice_lem :
      (ds : List ℕ) (f : ℕ) (h : Heap) (p y z : ℕ) (ws : List ℕ)
      → length ds < f
      → Tall h.node level p
      → All (Tall h.node level) (ds ++ y ∷ [])
      → Apart p (ds ++ y ∷ z ∷ ws)
      → Gap (on h) p false ds (y ∷ z ∷ ws)
      → (h' : Heap) × (splice f h level p (on h p).0 ≡ Run.ok (y, z, h'))
        × IsLocal p level h h'
        × Chain (on h') p (y ∷ z ∷ ws)
  unfolding write
  splice_lem ds zero h p y z ws l tp t a k = absurd (omega arith)
  splice_lem [] (suc f) h p y z ws l tp t a k = (
    h,
    rw k.0 (splice-unmarked f h p y t.0 (ap (λ r. r.1) k.1.0) ∙ ap (λ r. Run.ok (y, r.0, h)) k.1.0),
    IsLocal-refl p level h,
    k,
  )
  splice_lem (x ∷ ds) (suc f) h p y z ws l tp t a k =
      let h' : Heap = write h p level ((on h x).0, false) in
      let (h'', run, near, chain) = splice_lem ds f h' p y z ws (omega arith) tp t.1 a.1 (
        Gap-splice (on h) (on h') p x ds (y ∷ z ∷ ws)
          (λ b e. write-other_node h p level b level _ e) (write-same h p level _) a k.1) in
      (
        h'',
        rw k.0 (
            splice-marked f h p x tp t.0 k.0 (Gap-marked (on h) x true ds (z ∷ ws) y k.1)
            ∙ ap (λ r. splice f h' level p r.0) (sym (write-same h p level _))
            ∙ run),
        IsLocal-trans p level h h' h'' (write-IsLocal p level h _) near,
        chain,
      )

  -- A node on the level, and how its key compares with the target.
  abbrev pub Seen : (ℕ → Option Node) → Bytes → Bool → ℕ → Type 0
  Seen node key b a =
      (n : Node) × (node a ≡ some n) × (level ≤ n.top_level) × (key_lt n.key key ≡ b)

  pub Seen-precedes :
      (h : Heap) (key : Bytes) (b : Bool) (a : ℕ)
      → Seen h.node key b a
      → precedes h a key ≡ Run.ok b
  unfolding precedes
  Seen-precedes h key b a s = rw (header-some h a s.0 s.1) (ap Run.ok s.3)

  walk-stop :
      (f : ℕ) (h h' : Heap) (key : Bytes) (p c y z : ℕ)
      → splice f h level p c ≡ Run.ok (y, z, h')
      → Seen h'.node key false y
      → walk (suc f) h key level p c ≡ Run.ok (p, y, h')
  unfolding walk
  walk-stop f h h' key p c y z run s = rw run (rw (Seen-precedes h' key false y s) refl)

  walk-go :
      (f : ℕ) (h : Heap) (key : Bytes) (p c z : ℕ)
      → splice f h level p c ≡ Run.ok (c, z, h)
      → Seen h.node key true c
      → walk (suc f) h key level p c ≡ walk f h key level c z
  unfolding walk precedes
  walk-go f h key p c z run s = rw run (rw (header-some h c s.0 s.1) (rw s.3 refl))

  -- A level is walked to the last key before the target, and marked nodes after it leave the chain.
  pub walk_lem :
      (vs ds : List ℕ) (f : ℕ) (h : Heap) (key : Bytes) (p y z : ℕ) (ws : List ℕ)
      → suc (length vs + length ds) < f
      → Tall h.node level p
      → All (Seen h.node key true) vs
      → All (Tall h.node level) ds
      → Seen h.node key false y
      → Distinct (p ∷ vs ++ (ds ++ y ∷ z ∷ ws))
      → Loose (on h) p vs ds (y ∷ z ∷ ws)
      → (h' : Heap) × (walk f h key level p (on h p).0 ≡ Run.ok (last p vs, y, h'))
        × IsLocal (last p vs) level h h'
        × Chain (on h') (last p vs) (y ∷ z ∷ ws)
  walk_lem vs ds zero h key p y z ws l tp tv td s d k = absurd (omega arith)
  walk_lem [] ds (suc f) h key p y z ws l tp tv td s d k =
      let (h', run, near, chain) =
        splice_lem ds f h p y z ws (omega arith) tp
          (All-append _ ds (y ∷ []) td ((s.0, s.1, s.2), tt)) d.0 k in
      (
        h',
        walk-stop f h h' key p _ y z run (subst (λ n. Seen n key false y) (sym near.node) s),
        near,
        chain,
      )
  walk_lem (v ∷ vs) ds (suc zero) h key p y z ws l tp tv td s d k = absurd (omega arith)
  walk_lem (v ∷ vs) ds (suc (suc f)) h key p y z ws l tp tv td s d k =
      let tall : Tall h.node level v = (tv.0.0, tv.0.1, tv.0.2) in
      let (h', run, near, chain) =
        walk_lem vs ds (suc f) h key v y z ws (omega arith) tall tv.1 td s d.1 k.1 in
      (
        h',
        rw k.0 (
            walk-go (suc f) h key p v (on h v).0
              (splice-unmarked f h p v tall (Loose-unmarked (on h) v vs ds (z ∷ ws) y k.1)) tv.0
            ∙ run),
        near,
        chain,
      )
