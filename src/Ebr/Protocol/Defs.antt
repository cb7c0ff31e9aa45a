-- ===== src/Ebr/Protocol/Defs.antt =====
-- The invariant of the protocol: how far the epoch can run ahead of a guard.
use zerokv.Prelude.{ℕ, ◌+◌, ◌≤◌, ◌<◌, Bool, true, false, Option, none, some, All, ◌≡◌, ◌≢◌, ◌⊎◌}
use zerokv.Ebr.{Retired, n_slots, unpinned}
use zerokv.Ebr.Protocol.{
  Pc, absent, claimed, loaded, active, unlinking, tagging, Collect, began, scanning, advancing,
  reclaiming, draining, repushing, Cell, linked, unlinked, tagged, freed, World,
}

abbrev pub is_pinned : Pc → Bool
is_pinned active = true
is_pinned (unlinking _) = true
is_pinned (tagging _ _) = true
is_pinned _ = false

abbrev pub is_registered : Pc → Bool
is_registered absent = false
is_registered claimed = false
is_registered _ = true

-- The tag of an allocation, once `retire` has read it.
abbrev pub stamp : Cell → Option ℕ
stamp linked = none
stamp (unlinked _) = none
stamp (tagged e) = some e
stamp (freed e) = some e

abbrev pub Stamped : (ℕ → Cell) → Retired → Type 0
Stamped heap r = stamp (heap r.ptr) ≡ some r.epoch

-- What the locals of participant `i` say.
abbrev pub ThreadOk : World → ℕ → Pc → Type 0
ThreadOk s i (loaded e) = e ≤ s.epoch
ThreadOk s i (unlinking p) = s.heap p ≡ unlinked i
ThreadOk s i (tagging p e) = stamp (s.heap p) ≡ some e
ThreadOk s i _ = Unit

-- What the locals of a collection say: a slot that it has passed cannot hold back less than `g`.
abbrev pub CollectOk : World → Collect → Type 0
CollectOk s (began g) = g ≤ s.epoch
CollectOk s (scanning g last j) =
    (g ≤ s.epoch) × ((i : ℕ) → is_pinned (s.thread i) ≡ true → (i < j) ⊎ (last < i) → g ≤ s.since i)
CollectOk s (advancing g) =
    (g ≤ s.epoch) × ((i : ℕ) → is_pinned (s.thread i) ≡ true → g ≤ s.since i)
CollectOk s (reclaiming cur b) = cur ≤ s.epoch
CollectOk s (draining cur b chain keep) =
    (cur ≤ s.epoch) × All (Stamped s.heap) chain × All (Stamped s.heap) keep
CollectOk s (repushing cur b keep) = (cur ≤ s.epoch) × All (Stamped s.heap) keep
CollectOk s _ = Unit

-- A pinned participant's slot holds no more than the epoch at which it was stored, and the epoch is
-- at most one ahead of that.
pub record Pinned (s : World) (i : ℕ) : Type 0 where
  pub stored : s.slot i ≤ s.since i
  pub past : s.since i ≤ s.epoch
  pub near : s.epoch ≤ s.since i + 1

pub record Inv (s : World) : Type 0 where
  pub small : s.epoch < unpinned
  pub registered : (i : ℕ) → is_registered (s.thread i) ≡ true → (i ≤ s.hwm) × (i < n_slots)
  pub claims : (i : ℕ) → s.thread i ≢ absent → i < n_slots
  pub pinned : (i : ℕ) → is_pinned (s.thread i) ≡ true → Pinned s i
  pub threads : (i : ℕ) → ThreadOk s i (s.thread i)
  pub collectors : (c : ℕ) → CollectOk s (s.collector c)
  pub bags : (b : ℕ) → All (Stamped s.heap) (s.bag b)
  pub gone : (p e : ℕ) → s.heap p ≡ freed e → e + 2 ≤ s.epoch
  pub met :
      (i p : ℕ)
      → s.met i p ≡ true
      → (is_pinned (s.thread i) ≡ true) × ((e : ℕ) → stamp (s.heap p) ≡ some e → s.since i ≤ e)
  pub held : (i p : ℕ) → s.holds i p ≡ true → s.met i p ≡ true
