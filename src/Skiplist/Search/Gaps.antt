-- ===== src/Skiplist/Search/Gaps.antt =====
-- A level on the way to a key: unmarked nodes, then marked ones, and what follows.
use zerokv.Prelude.{ℕ, ◌≡◌, ◌≢◌, refl, sym, ap, ◌∙◌, Bool, true, false, List, [], ◌∷◌, ◌++◌}
use zerokv.Skiplist.Heap.{Heap, Ref, write}
use zerokv.Skiplist.Heap.Writes.{write-other_node, write-other_level}
use zerokv.Skiplist.Chains.{last, Apart, Chain, Chain-same, Chain-beyond}

-- From `p`, whose link has the mark `m`, over the marked nodes `ds` to the chain `ys`.
abbrev pub Gap : (ℕ → Ref) → ℕ → Bool → List ℕ → List ℕ → Type 0
Gap g p m [] [] = Unit
Gap g p m [] (y ∷ ys) = (g p ≡ (y, m)) × Chain g y ys
Gap g p m (x ∷ ds) ys = (g p ≡ (x, m)) × Gap g x true ds ys

-- From `p` through the unmarked nodes `vs` first.
abbrev pub Loose : (ℕ → Ref) → ℕ → List ℕ → List ℕ → List ℕ → Type 0
Loose g p [] ds ys = Gap g p false ds ys
Loose g p (v ∷ vs) ds ys = (g p ≡ (v, false)) × Loose g v vs ds ys

Gap-same :
    (g g' : ℕ → Ref) (p : ℕ) (m : Bool) (ds ys : List ℕ)
    → ((x : ℕ) → g' x ≡ g x)
    → Gap g p m ds ys
    → Gap g' p m ds ys
Gap-same g g' p m [] [] e k = tt
Gap-same g g' p m [] (y ∷ ys) e k = (e p ∙ k.0, Chain-same g g' y ys e k.1)
Gap-same g g' p m (d ∷ ds) ys e k = (e p ∙ k.0, Gap-same g g' d true ds ys e k.1)

pub Loose-Chain : (g : ℕ → Ref) (p : ℕ) (vs ds ys : List ℕ) → Loose g p vs ds ys → Chain g p vs
Loose-Chain g p [] ds ys h = tt
Loose-Chain g p (v ∷ vs) ds ys h = (h.0, Loose-Chain g v vs ds ys h.1)

pub Loose-right :
    (g : ℕ → Ref) (p : ℕ) (us vs ds ys : List ℕ)
    → Loose g p (us ++ vs) ds ys
    → Loose g (last p us) vs ds ys
Loose-right g p [] vs ds ys h = h
Loose-right g p (u ∷ us) vs ds ys h = Loose-right g u us vs ds ys h.1

pub Loose-same :
    (g g' : ℕ → Ref) (p : ℕ) (vs ds ys : List ℕ)
    → ((x : ℕ) → g' x ≡ g x)
    → Loose g p vs ds ys
    → Loose g' p vs ds ys
Loose-same g g' p [] ds ys e k = Gap-same g g' p false ds ys e k
Loose-same g g' p (v ∷ vs) ds ys e k = (e p ∙ k.0, Loose-same g g' v vs ds ys e k.1)

-- A node that is on the way is not marked itself.
pub Loose-unmarked :
    (g : ℕ → Ref) (p : ℕ) (vs ds ys : List ℕ) (y : ℕ) → Loose g p vs ds (y ∷ ys) → (g p).1 ≡ false
Loose-unmarked g p [] [] ys y h = ap (λ r. r.1) h.0
Loose-unmarked g p [] (d ∷ ds) ys y h = ap (λ r. r.1) h.0
Loose-unmarked g p (v ∷ vs) ds ys y h = ap (λ r. r.1) h.0

Gap-beyond :
    (g g' : ℕ → Ref) (q : ℕ)
    → ((x : ℕ) → x ≢ q → g' x ≡ g x)
    → (p : ℕ) (m : Bool) (ds ys : List ℕ) → Apart q (p ∷ ds ++ ys)
    → Gap g p m ds ys
    → Gap g' p m ds ys
Gap-beyond g g' q same p m [] [] a h = tt
Gap-beyond g g' q same p m [] (y ∷ ys) a h =
    (same p (λ e. a.0 (sym e)) ∙ h.0, Chain-beyond g g' q q (λ x e k. same x e) y ys a.1 a.1 h.1)
Gap-beyond g g' q same p m (d ∷ ds) ys a h =
    (same p (λ e. a.0 (sym e)) ∙ h.0, Gap-beyond g g' q same d true ds ys a.1 h.1)

-- What the first marked node led to, `p` leads to once it is spliced out.
pub Gap-splice :
    (g g' : ℕ → Ref) (p x : ℕ) (ds ys : List ℕ)
    → ((z : ℕ) → z ≢ p → g' z ≡ g z)
    → g' p ≡ ((g x).0, false)
    → Apart p (x ∷ ds ++ ys)
    → Gap g x true ds ys
    → Gap g' p false ds ys
Gap-splice g g' p x [] [] same e a h = tt
Gap-splice g g' p x [] (y ∷ ys) same e a h =
    (e ∙ ap (λ r. (r.0, false)) h.0, Chain-beyond g g' p p (λ z k l. same z k) y ys a.1 a.1 h.1)
Gap-splice g g' p x (d ∷ ds) ys same e a h =
    (e ∙ ap (λ r. (r.0, false)) h.0, Gap-beyond g g' p same d true ds ys a.1 h.1)

pub Gap-marked :
    (g : ℕ → Ref) (p : ℕ) (m : Bool) (ds ys : List ℕ) (y : ℕ) → Gap g p m ds (y ∷ ys) → (g p).1 ≡ m
Gap-marked g p m [] ys y h = ap (λ r. r.1) h.0
Gap-marked g p m (d ∷ ds) ys y h = ap (λ r. r.1) h.0

-- Two heaps that differ in one link of `p` at most.
pub record IsLocal (p level : ℕ) (h h' : Heap) : Type 0 where
  pub node : h'.node ≡ h.node
  pub next : h'.next ≡ h.next
  pub other_node : (a l : ℕ) → a ≢ p → h'.links a l ≡ h.links a l
  pub other_level : (a l : ℕ) → l ≢ level → h'.links a l ≡ h.links a l

pub IsLocal-refl : (p level : ℕ) (h : Heap) → IsLocal p level h h
IsLocal-refl p level h = record {
  node = refl;
  next = refl;
  other_node = λ a l e. refl;
  other_level = λ a l e. refl;
}

pub IsLocal-trans :
    (p level : ℕ) (h h' h'' : Heap)
    → IsLocal p level h h'
    → IsLocal p level h' h''
    → IsLocal p level h h''
IsLocal-trans p level h h' h'' a b = record {
  node = b.node ∙ a.node;
  next = b.next ∙ a.next;
  other_node = λ x l e. b.other_node x l e ∙ a.other_node x l e;
  other_level = λ x l e. b.other_level x l e ∙ a.other_level x l e;
}

pub write-IsLocal : (p level : ℕ) (h : Heap) (v : Ref) → IsLocal p level h (write h p level v)
unfolding write
write-IsLocal p level h v = record {
  node = refl;
  next = refl;
  other_node = λ a l e. write-other_node h p level a l v e;
  other_level = λ a l e. write-other_level h p level a l v e;
}
