-- ===== src/Ebr/Bags.antt =====
-- What one pass of `reclaim_bag` frees and what it leaves, against the two filters that it means.
use mathlib.Core.List.{flatten, append-nil}
use zerokv.Prelude.{
  ℕ, ◌≡◌, refl, ap, ap₂, ◌∙◌, Bool, not, Bool-cases, List, [], ◌∷◌, ◌++◌, map, filter,
  filter-append, inl, inr,
}
use zerokv.Ebr.{Retired, eligible, sift, push_back, reclaim_bag, reclaim_bags}

abbrev pub young : ℕ → Retired → Bool
young cur r = not (eligible cur r)

sift-freed : (cur : ℕ) (bag keep : List Retired) → (sift cur bag keep).0 ≡ filter (eligible cur) bag
unfolding sift
sift-freed cur [] keep = refl
sift-freed cur (r ∷ rest) keep = elim (Bool-cases (eligible cur r)) [
  | inl e ↦ rw e (ap (λ l. r ∷ l) (sift-freed cur rest keep))
  | inr e ↦ rw e (sift-freed cur rest (r ∷ keep))
]

push_back-sift :
    (cur : ℕ) (bag keep acc : List Retired)
    → push_back (sift cur bag keep).1 acc ≡ push_back keep (filter (young cur) bag ++ acc)
unfolding sift push_back
push_back-sift cur [] keep acc = refl
push_back-sift cur (r ∷ rest) keep acc = elim (Bool-cases (eligible cur r)) [
  | inl e ↦ rw e (push_back-sift cur rest keep acc)
  | inr e ↦ rw e (push_back-sift cur rest (r ∷ keep) acc)
]

-- The two loops of `reclaim_bag` free the eligible records of the bag and put the others back, in
-- the order in which they lay.
pub reclaim_bag_lem :
    (cur : ℕ) (bag : List Retired)
    → reclaim_bag cur bag ≡ (filter (eligible cur) bag, filter (young cur) bag)
unfolding reclaim_bag push_back
reclaim_bag_lem cur bag =
    ap₂ (λ (f k : List Retired). (f, k)) (sift-freed cur bag [])
      (push_back-sift cur bag [] [] ∙ append-nil (filter (young cur) bag))

-- All the bags: what is freed is what is eligible in any of them.
pub reclaim_bags_lem :
    (cur : ℕ) (bags : List (List Retired))
    → reclaim_bags cur bags ≡ (filter (eligible cur) (flatten bags), map (filter (young cur)) bags)
unfolding reclaim_bags flatten
reclaim_bags_lem cur [] = refl
reclaim_bags_lem cur (bag ∷ bags) =
    rw (reclaim_bag_lem cur bag, reclaim_bags_lem cur bags, filter-append)
