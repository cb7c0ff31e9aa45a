-- ===== src/Spsc/Drop.antt =====
-- `Drop for Ring` drops the queued values, each once, and no slot that was never written.
use native.Mathlib.Decide.{dec_lt}
use zerokv.Prelude.{
  ℕ, zero, suc, ◌+◌, ◌%◌, ◌<◌, ◌≡◌, sym, ap, ◌∙◌, true, false, some, List, [], map, length, drop,
  arith, ◌==◌, get_elem?_of_lt, length-drop, drop-cons, ==_iff, ==_ne,
}
use zerokv.Words.{word, wrapping_add}
use zerokv.Spsc.{Ring, drop_slots, release}
use zerokv.Spsc.Queue.{empty_of_length}
use zerokv.Spsc.Window.{Holds, two-pow-small, mod-ne, read_slot-oldest, Holds-release}

-- The rounds from an index that stands for `c` pops on.
pub drop_slots-Holds :
    {T : Type 0} {k : ℕ} (fuel : ℕ) (r : Ring T) (i : ℕ) (sent : List T) (c : ℕ)
    → Holds k (record r { head = i }) sent c
    → length sent < c + fuel
    → drop_slots fuel r i r.tail ≡ (map some (drop c sent), r.tail)
unfolding drop_slots release
drop_slots-Holds zero r i sent c h enough = absurd (omega (arith, h.order))
drop_slots-Holds (suc fuel) r i sent c h enough = elim (dec_lt c (length sent)) [
  | yes lt ↦
      let (x, found) = get_elem?_of_lt sent c lt in
      let next = rw (← h.head_at) at (Holds-release h x found) in
      rw (
        differ lt,
        drop_slots-Holds fuel r (wrapping_add i 1) sent (suc c) next (omega arith),
        drop-cons c sent x found,
        h.head_at,
        read_slot-oldest h x found,
      )
  | no ge ↦
      let none_left : length (drop c sent) ≡ 0 = omega (arith, length-drop c sent) in
      rw (same (omega (arith, h.order)), empty_of_length (drop c sent) none_left)
        (ap (λ (n : ℕ). ([], n))
          (h.head_at ∙ ap (λ n. n % word) (omega (arith, h.order)) ∙ sym h.tail_at))
]
  where
    differ : c < length sent → i == r.tail ≡ false
    differ lt =
        rw (h.head_at, h.tail_at)
          (==_ne _ _
            (mod-ne word c (length sent) lt (omega (arith, h.room, two-pow-small _ h.width))))

    same : c ≡ length sent → i == r.tail ≡ true
    same e = (==_iff i r.tail).1 (h.head_at ∙ ap (λ n. n % word) e ∙ sym h.tail_at)
