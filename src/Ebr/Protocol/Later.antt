-- ===== src/Ebr/Protocol/Later.antt =====
-- What every step leaves true of the views that the other participants and the collections have.
use native.Mathlib.Nat.{le_trans}
use zerokv.Prelude.{ℕ, ◌≤◌, true, some, List, [], ◌∷◌, All, ◌≡◌, ◌⊎◌, inl, inr, arith}
use zerokv.Ebr.{Retired}
use zerokv.Ebr.Protocol.{
  Pc, absent, claimed, idle, loaded, active, unlinking, tagging, Collect, off, began, scanning,
  advancing, advanced, reclaiming, draining, repushing, unlinked, World,
}
use zerokv.Ebr.Protocol.Defs.{is_pinned, stamp, Stamped, ThreadOk, CollectOk}

pub record Later (s t : World) : Type 0 where
  pub epochs : s.epoch ≤ t.epoch
  -- a guard is the one of before, or was taken at the present epoch
  pub pins :
      (i : ℕ)
      → is_pinned (t.thread i) ≡ true
      → ((is_pinned (s.thread i) ≡ true) × (s.since i ≤ t.since i)) ⊎ (s.epoch ≤ t.since i)
  pub stamps : (p e : ℕ) → stamp (s.heap p) ≡ some e → stamp (t.heap p) ≡ some e
  pub owned : (p k : ℕ) → s.heap p ≡ unlinked k → t.thread k ≡ unlinking p → t.heap p ≡ unlinked k

module _ {s t : World} (l : Later s t) where
  pub All-later : (rs : List Retired) → All (Stamped s.heap) rs → All (Stamped t.heap) rs
  All-later [] h = tt
  All-later (r ∷ rs) h = (l.stamps r.ptr r.epoch h.0, All-later rs h.1)

  since-later :
      (g i : ℕ)
      → g ≤ s.epoch
      → is_pinned (t.thread i) ≡ true
      → (is_pinned (s.thread i) ≡ true → g ≤ s.since i)
      → g ≤ t.since i
  since-later g i le q h = elim (l.pins i q) [
    | inl old ↦ le_trans (h old.0) old.1
    | inr new ↦ le_trans le new
  ]

  pub CollectOk-later : (c : Collect) → CollectOk s c → CollectOk t c
  CollectOk-later off h = tt
  CollectOk-later (began g) h = omega (arith, l.epochs)
  CollectOk-later (scanning g last j) h =
      (omega (arith, l.epochs, h.0), λ i q side. since-later g i h.0 q (λ p. h.1 i p side))
  CollectOk-later (advancing g) h =
      (omega (arith, l.epochs, h.0), λ i q. since-later g i h.0 q (λ p. h.1 i p))
  CollectOk-later advanced h = tt
  CollectOk-later (reclaiming cur b) h = omega (arith, l.epochs)
  CollectOk-later (draining cur b chain keep) h =
      (omega (arith, l.epochs, h.0), All-later chain h.1, All-later keep h.2)
  CollectOk-later (repushing cur b keep) h = (omega (arith, l.epochs, h.0), All-later keep h.1)

  pub ThreadOk-later : (k : ℕ) (p : Pc) → t.thread k ≡ p → ThreadOk s k p → ThreadOk t k p
  ThreadOk-later k (loaded e) q h = omega (arith, l.epochs)
  ThreadOk-later k (unlinking p) q h = l.owned p k h q
  ThreadOk-later k (tagging p e) q h = l.stamps p e h
  ThreadOk-later k absent q h = tt
  ThreadOk-later k claimed q h = tt
  ThreadOk-later k idle q h = tt
  ThreadOk-later k active q h = tt
