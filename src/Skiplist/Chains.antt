-- ===== src/Skiplist/Chains.antt =====
-- Chains of unmarked links on one level, and what a changed link does to them.
use zerokv.Prelude.{ℕ, ◌≡◌, ◌≢◌, refl, sym, subst, ◌∙◌, false, List, [], ◌∷◌, ◌++◌, All}
use zerokv.Skiplist.Heap.{Ref}

abbrev pub last : ℕ → List ℕ → ℕ
last p [] = p
last p (x ∷ xs) = last x xs

pub last-append : (p : ℕ) (us vs : List ℕ) → last p (us ++ vs) ≡ last (last p us) vs
last-append p [] vs = refl
last-append p (u ∷ us) vs = last-append u us vs

pub last-All : (P : ℕ → Type 0) (p : ℕ) (us : List ℕ) → P p → All P us → P (last p us)
last-All P p [] hp hs = hp
last-All P p (u ∷ us) hp hs = last-All P u us hs.0 hs.1

pub All-left : (P : ℕ → Type 0) (us vs : List ℕ) → All P (us ++ vs) → All P us
All-left P [] vs h = tt
All-left P (u ∷ us) vs h = (h.0, All-left P us vs h.1)

pub All-right : (P : ℕ → Type 0) (us vs : List ℕ) → All P (us ++ vs) → All P vs
All-right P [] vs h = h
All-right P (u ∷ us) vs h = All-right P us vs h.1

pub All-imp : (P Q : ℕ → Type 0) → ((x : ℕ) → P x → Q x) → (us : List ℕ) → All P us → All Q us
All-imp P Q f [] h = tt
All-imp P Q f (u ∷ us) h = (f u h.0, All-imp P Q f us h.1)

abbrev pub Apart : ℕ → List ℕ → Type 0
Apart x = All (λ y. x ≢ y)

abbrev pub Distinct : List ℕ → Type 0
Distinct [] = Unit
Distinct (x ∷ xs) = Apart x xs × Distinct xs

pub Distinct-left : (us vs : List ℕ) → Distinct (us ++ vs) → Distinct us
Distinct-left [] vs d = tt
Distinct-left (u ∷ us) vs d = (All-left _ us vs d.0, Distinct-left us vs d.1)

-- Nothing of the left part is in the right part.
pub Distinct-Apart : (us vs : List ℕ) → Distinct (us ++ vs) → All (λ u. Apart u vs) us
Distinct-Apart [] vs d = tt
Distinct-Apart (u ∷ us) vs d = (All-right _ us vs d.0, Distinct-Apart us vs d.1)

pub Distinct-last : (p : ℕ) (us vs : List ℕ) → Distinct (p ∷ us ++ vs) → Apart (last p us) vs
Distinct-last p us vs d =
    last-All (λ u. Apart u vs) p us (All-right _ us vs d.0) (Distinct-Apart us vs d.1)

pub Distinct-drop : (p : ℕ) (us vs : List ℕ) → Distinct (p ∷ us ++ vs) → Distinct (last p us ∷ vs)
Distinct-drop p [] vs d = d
Distinct-drop p (u ∷ us) vs d = Distinct-drop u us vs d.1

pub All-middle :
    (P : ℕ → Type 0) (us vs : List ℕ) (n : ℕ) → P n → All P (us ++ vs) → All P (us ++ n ∷ vs)
All-middle P [] vs n hn h = (hn, h)
All-middle P (u ∷ us) vs n hn h = (h.0, All-middle P us vs n hn h.1)

pub All-without :
    (P : ℕ → Type 0) (us vs : List ℕ) (n : ℕ) → All P (us ++ n ∷ vs) → All P (us ++ vs)
All-without P [] vs n h = h.1
All-without P (u ∷ us) vs n h = (h.0, All-without P us vs n h.1)

pub Distinct-middle :
    (us vs : List ℕ) (n : ℕ) → Apart n (us ++ vs) → Distinct (us ++ vs) → Distinct (us ++ n ∷ vs)
Distinct-middle [] vs n a d = (a, d)
Distinct-middle (u ∷ us) vs n a d =
    (All-middle _ us vs n (λ e. a.0 (sym e)) d.0, Distinct-middle us vs n a.1 d.1)

pub Distinct-without : (us vs : List ℕ) (n : ℕ) → Distinct (us ++ n ∷ vs) → Distinct (us ++ vs)
Distinct-without [] vs n d = d.1
Distinct-without (u ∷ us) vs n d = (All-without _ us vs n d.0, Distinct-without us vs n d.1)

-- What the removed element was apart from.
pub Apart-middle : (us vs : List ℕ) (n : ℕ) → Distinct (us ++ n ∷ vs) → Apart n (us ++ vs)
Apart-middle [] vs n d = d.0
Apart-middle (u ∷ us) vs n d =
    (λ e. (All-right _ us (n ∷ vs) d.0).0 (sym e), Apart-middle us vs n d.1)

-- From `p` the links lead through the list, unmarked.
abbrev pub Chain : (ℕ → Ref) → ℕ → List ℕ → Type 0
Chain g p [] = Unit
Chain g p (x ∷ xs) = (g p ≡ (x, false)) × Chain g x xs

pub Chain-left : (g : ℕ → Ref) (p : ℕ) (us vs : List ℕ) → Chain g p (us ++ vs) → Chain g p us
Chain-left g p [] vs c = tt
Chain-left g p (u ∷ us) vs c = (c.0, Chain-left g u us vs c.1)

pub Chain-right :
    (g : ℕ → Ref) (p : ℕ) (us vs : List ℕ) → Chain g p (us ++ vs) → Chain g (last p us) vs
Chain-right g p [] vs c = c
Chain-right g p (u ∷ us) vs c = Chain-right g u us vs c.1

pub Chain-append :
    (g : ℕ → Ref) (p : ℕ) (us vs : List ℕ)
    → Chain g p us
    → Chain g (last p us) vs
    → Chain g p (us ++ vs)
Chain-append g p [] vs c d = d
Chain-append g p (u ∷ us) vs c d = (c.0, Chain-append g u us vs c.1 d)

pub Chain-same :
    (g g' : ℕ → Ref) (p : ℕ) (us : List ℕ) → ((x : ℕ) → g' x ≡ g x) → Chain g p us → Chain g' p us
Chain-same g g' p [] e c = tt
Chain-same g g' p (u ∷ us) e c = (e p ∙ c.0, Chain-same g g' u us e c.1)

-- Only the last link of a chain changed, so what leads to it is as before.
pub Chain-until_last :
    (g g' : ℕ → Ref) (p : ℕ) (us : List ℕ)
    → ((x : ℕ) → x ≢ last p us → g' x ≡ g x)
    → Distinct (p ∷ us)
    → Chain g p us
    → Chain g' p us
Chain-until_last g g' p [] same d c = tt
Chain-until_last g g' p (u ∷ us) same d c =
    (same p (last-All (λ x. p ≢ x) u us d.0.0 d.0.1) ∙ c.0, Chain-until_last g g' u us same d.1 c.1)

-- Links that changed at `q` and `n` at most.
module _ (g g' : ℕ → Ref) (q n : ℕ) (same : (x : ℕ) → x ≢ q → x ≢ n → g' x ≡ g x) where
  pub Chain-until :
      (p : ℕ) (us : List ℕ)
      → last p us ≡ q
      → Distinct (p ∷ us)
      → Apart n (p ∷ us)
      → Chain g p us
      → Chain g' p us
  Chain-until p [] e d a c = tt
  Chain-until p (u ∷ us) e d a c = (
    same p (λ k. last-All (λ x. p ≢ x) u us d.0.0 d.0.1 (k ∙ sym e)) (λ k. a.0 (sym k)) ∙ c.0,
    Chain-until u us e d.1 a.1 c.1,
  )

  pub Chain-beyond :
      (p : ℕ) (us : List ℕ) → Apart q (p ∷ us) → Apart n (p ∷ us) → Chain g p us → Chain g' p us
  Chain-beyond p [] d a c = tt
  Chain-beyond p (u ∷ us) d a c =
      (same p (λ k. d.0 (sym k)) (λ k. a.0 (sym k)) ∙ c.0, Chain-beyond u us d.1 a.1 c.1)

  -- The chain led over `q` and `n` from now on.
  pub Chain-joined :
      (p y : ℕ) (us ws : List ℕ)
      → last p us ≡ q
      → Distinct (p ∷ us ++ y ∷ ws)
      → Apart n (p ∷ us ++ y ∷ ws)
      → Chain g p us
      → Chain g y ws
      → Chain g' p us × Chain g' y ws
  Chain-joined p y us ws e d a c k = (
    Chain-until p us e (Distinct-left (p ∷ us) (y ∷ ws) d) (All-left _ (p ∷ us) (y ∷ ws) a) c,
    Chain-beyond y ws (subst (λ z. Apart z (y ∷ ws)) e (Distinct-last p us (y ∷ ws) d))
        (All-right _ (p ∷ us) (y ∷ ws) a) k,
  )

-- A new element led into a chain.
pub Chain-inserted :
    (g g' : ℕ → Ref) (p y n : ℕ) (us ws : List ℕ)
    → ((x : ℕ) → x ≢ last p us → x ≢ n → g' x ≡ g x)
    → g' (last p us) ≡ (n, false)
    → g' n ≡ (y, false)
    → Distinct (p ∷ us ++ y ∷ ws)
    → Apart n (p ∷ us ++ y ∷ ws)
    → Chain g p (us ++ y ∷ ws)
    → Chain g' p (us ++ n ∷ y ∷ ws)
Chain-inserted g g' p y n us ws same ep en d a c =
    let parts =
      Chain-joined g g' (last p us) n same p y us ws refl d a (Chain-left g p us (y ∷ ws) c)
        (Chain-right g p us (y ∷ ws) c).1 in
    Chain-append g' p us (n ∷ y ∷ ws) parts.0 (ep, (en, parts.1))
