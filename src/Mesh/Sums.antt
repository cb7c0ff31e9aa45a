-- ===== src/Mesh/Sums.antt =====
-- Sums over the workers.
use zerokv.Prelude.{
  ℕ, zero, suc, ◌+◌, ◌≤◌, ◌<◌, ◌≡◌, ◌≢◌, refl, ap, ap₂, arith, ◌==◌, ==_refl, ==_ne, ==_iff,
  Bool-cases, inl, inr, sym, subst,
}
use native.Mathlib.Decide.{dec_lt}
use zerokv.Mesh.{upd}

-- The values below `n`.
abbrev pub sum : ℕ → (ℕ → ℕ) → ℕ
sum zero f = 0
sum (suc n) f = f n + sum n f

pub sum_same : (n : ℕ) (f g : ℕ → ℕ) → ((i : ℕ) → i < n → f i ≡ g i) → sum n f ≡ sum n g
sum_same zero f g h = refl
sum_same (suc n) f g h =
    ap₂ (λ (a b : ℕ). a + b) (h n (omega arith)) (sum_same n f g (λ i lt. h i (omega arith)))

-- A sum whose terms change at one place only.
pub sum_change :
    (n : ℕ) (f g : ℕ → ℕ) (i : ℕ)
    → i < n
    → ((j : ℕ) → j ≢ i → f j ≡ g j)
    → sum n f + g i ≡ sum n g + f i
sum_change zero f g i lt h = absurd (omega arith)
sum_change (suc n) f g i lt h = elim (dec_lt i n) [
  | yes p ↦ omega (arith, sum_change n f g i p h, h n (λ e. absurd (omega arith)))
  | no p ↦
      let here : i ≡ n = omega arith in
      omega (arith, sum_same n f g (λ j jt. h j (λ e. absurd (omega arith))), ap f here, ap g here)
]

pub sum-le : (n : ℕ) (f : ℕ → ℕ) (i : ℕ) → i < n → f i ≤ sum n f
sum-le zero f i lt = absurd (omega arith)
sum-le (suc n) f i lt = elim (dec_lt i n) [
  | yes p ↦ omega (arith, sum-le n f i p)
  | no p ↦ let here : i ≡ n = omega arith in omega (arith, ap f here)
]

sum_le_count : (n : ℕ) (f : ℕ → ℕ) → ((i : ℕ) → f i ≤ 1) → sum n f ≤ n
sum_le_count zero f h = omega arith
sum_le_count (suc n) f h = omega (arith, h n, sum_le_count n f h)

-- Flags, one of which is down, do not make the full number.
pub sum_lt_count : (n : ℕ) (f : ℕ → ℕ) (i : ℕ) → ((j : ℕ) → f j ≤ 1) → i < n → f i ≡ 0 → sum n f < n
sum_lt_count zero f i h lt e = absurd (omega arith)
sum_lt_count (suc n) f i h lt e = elim (dec_lt i n) [
  | yes p ↦ omega (arith, h n, sum_lt_count n f i h p e)
  | no p ↦ let here : i ≡ n = omega arith in omega (arith, e, sum_le_count n f h, ap f here)
]

pub upd_same {ℓ} : {A : Type ℓ} (f : ℕ → A) (i : ℕ) (v : A) → upd f i v i ≡ v
upd_same f i v = rw (==_refl i) refl

pub upd_other {ℓ} : {A : Type ℓ} (f : ℕ → A) (i : ℕ) (v : A) (j : ℕ) → j ≢ i → upd f i v j ≡ f j
upd_other f i v j ne = rw (==_ne i j (λ e. ne (sym e))) refl

-- A property of every value survives a change to a value that has it.
pub upd-all {ℓ κ} :
    {A : Type ℓ} (P : ℕ → A → Type κ) (f : ℕ → A) (i : ℕ) (v : A)
    → ((j : ℕ) → P j (f j))
    → P i v
    → (j : ℕ) → P j (upd f i v j)
upd-all P f i v h hv j = elim (Bool-cases (i == j)) [
  | inl e ↦ rw e (subst (λ k. P k v) ((==_iff i j).0 e) hv)
  | inr e ↦ rw e (h j)
]
