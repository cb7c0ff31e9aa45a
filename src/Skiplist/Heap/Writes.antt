-- ===== src/Skiplist/Heap/Writes.antt =====
-- What the accesses to one link return and change.
use zerokv.Prelude.{
  le→leb, ℕ, ◌≤◌, ◌≡◌, ◌≢◌, inl, inr, refl, true, false, Option, some, ◌==◌, ==_refl, ==_ne,
  Bool-cases,
}
use zerokv.Skiplist.Heap.{
  Node, Heap, Run, Ref, header, link, write, store, same_ref, cas, attempt_mark,
}

-- A node that has a link at the level.
abbrev pub Tall : (ℕ → Option Node) → ℕ → ℕ → Type 0
Tall node level a = (n : Node) × (node a ≡ some n) × (level ≤ n.top_level)

pub header-some : (h : Heap) (p : ℕ) (n : Node) → h.node p ≡ some n → header h p ≡ Run.ok n
unfolding header
header-some h p n e = rw e refl

pub link-Tall :
    (h : Heap) (p level : ℕ) → Tall h.node level p → link h p level ≡ Run.ok (h.links p level)
unfolding link header
link-Tall h p level t = rw t.1 (rw (le→leb level t.0.top_level t.2) refl)

pub write-same : (h : Heap) (p level : ℕ) (v : Ref) → (write h p level v).links p level ≡ v
unfolding write
write-same h p level v = rw (==_refl p) (rw (==_refl level) refl)

pub write-other_node :
    (h : Heap) (p level a l : ℕ) (v : Ref) → a ≢ p → (write h p level v).links a l ≡ h.links a l
unfolding write
write-other_node h p level a l v e = rw (==_ne a p e) refl

pub write-other_level :
    (h : Heap) (p level a l : ℕ) (v : Ref) → l ≢ level → (write h p level v).links a l ≡ h.links a l
unfolding write
write-other_level h p level a l v e = elim (Bool-cases (a == p)) [
  | inl k ↦ rw k (rw (==_ne l level e) refl)
  | inr k ↦ rw k refl
]

pub store-Tall :
    (h : Heap) (p level : ℕ) (v : Ref)
    → Tall h.node level p
    → store h p level v ≡ Run.ok (write h p level v)
unfolding store
store-Tall h p level v t = rw (link-Tall h p level t) refl

same_ref_refl : (v : Ref) → same_ref v v ≡ true
unfolding same_ref
same_ref_refl (a, true) = rw (==_refl a) refl
same_ref_refl (a, false) = rw (==_refl a) refl

-- A CAS succeeds that expects what the link holds.
pub cas-Tall :
    (h : Heap) (p level : ℕ) (v w : Ref)
    → Tall h.node level p
    → h.links p level ≡ v
    → cas h p level v w ≡ Run.ok (true, write h p level w)
unfolding cas
cas-Tall h p level v w t e = rw (link-Tall h p level t) (rw e (rw (same_ref_refl v) refl))

-- A mark that is set keeps the reference.
pub attempt_mark-Tall :
    (h : Heap) (p level q : ℕ)
    → Tall h.node level p
    → h.links p level ≡ (q, false)
    → attempt_mark h p level q true ≡ Run.ok (true, write h p level (q, true))
unfolding attempt_mark
attempt_mark-Tall h p level q t e = cas-Tall h p level (q, false) (q, true) t e
