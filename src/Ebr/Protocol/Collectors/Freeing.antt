-- ===== src/Ebr/Protocol/Collectors/Freeing.antt =====
-- Freeing the allocations of a chain, and the views that a moving collection leaves alone.
use zerokv.Prelude.{ℕ, ◌≡◌, ◌==◌, arith, inl, inr, Bool-cases}
use zerokv.Ebr.{Retired}
use zerokv.Ebr.Protocol.{Collect, Cell, freed, World, update}
use zerokv.Ebr.Protocol.Defs.{stamp, Stamped, CollectOk, Inv}
use zerokv.Ebr.Protocol.Later.{Later, CollectOk-later}

-- Freeing a tagged allocation keeps all tags.
pub stamp_freed :
    (heap : ℕ → Cell) (r : Retired) (p : ℕ)
    → Stamped heap r
    → stamp (update heap r.ptr (freed r.epoch) p) ≡ stamp (heap p)
stamp_freed heap r p h = ground (arith, h)

-- Where one collection moves, the others keep their views.
pub moved :
    {s t : World}
    → Later s t
    → (c : ℕ) (q : Collect) → CollectOk t q
    → ((d : ℕ) → CollectOk s (s.collector d))
    → (d : ℕ) → CollectOk t (update s.collector c q d)
moved {s} {t} l c q own views d = elim (Bool-cases (c == d)) [
  | inl e ↦ rw e own
  | inr e ↦ rw e (CollectOk-later l (s.collector d) (views d))
]

-- What the collection that moves knows from its place.
pub own : {s : World} → Inv s → (c : ℕ) (q : Collect) → s.collector c ≡ q → CollectOk s q
own inv c q at = rw at at (inv.collectors c)
