-- ===== src/Ebr/Protocol/Safety.antt =====
-- What the grace period guarantees, for every interleaving.
use native.Mathlib.Nat.{le_refl}
use zerokv.Prelude.{ℕ, ◌+◌, ◌≤◌, ◌<◌, true, ◌≡◌, ◌≢◌, arith, refl, ap}
use zerokv.Ebr.{unpinned}
use zerokv.Ebr.Protocol.{
  World, Step, Reach, start, later, init, freed, claim, raise, pin_load, pin_store, load, unlink,
  tag, push, unpin, begin, scan, pass, block, scan_done, win, lose, reload, detach, free, keep,
  drained, repush, repushed, finish,
}
use zerokv.Ebr.Protocol.Defs.{is_pinned, stamp, Inv}
use zerokv.Ebr.Protocol.Threads.{
  claim-Inv, raise-Inv, pin_load-Inv, pin_store-Inv, load-Inv, unlink-Inv, tag-Inv, push-Inv,
  unpin-Inv,
}
use zerokv.Ebr.Protocol.Collectors.{
  begin-Inv, scan-Inv, pass-Inv, stop-Inv, scan_done-Inv, win-Inv, reload-Inv, detach-Inv, free-Inv,
  keep-Inv, drained-Inv, repush-Inv, repushed-Inv, finish-Inv,
}

Step-Inv : {s t : World} → Step s t → t.epoch < unpinned → Inv s → Inv t
Step-Inv (claim i lt at unclaimed) low inv = claim-Inv inv i lt at
Step-Inv (raise i at) low inv = raise-Inv inv i at
Step-Inv (pin_load i at) low inv = pin_load-Inv inv i at
Step-Inv (pin_store i e at) low inv = pin_store-Inv inv i e at
Step-Inv (load i p at there) low inv = load-Inv inv i p at there
Step-Inv (unlink i p at there) low inv = unlink-Inv inv i p at there
Step-Inv (tag i p at) low inv = tag-Inv inv i p at
Step-Inv (push i p e drop_fn at) low inv = push-Inv inv i p e drop_fn at
Step-Inv (unpin i at) low inv = unpin-Inv inv i at
Step-Inv (begin c at) low inv = begin-Inv inv c at
Step-Inv (scan c g at) low inv = scan-Inv inv c g at
Step-Inv (pass c g last j at le clear) low inv = pass-Inv inv c g last j at clear
Step-Inv (block c g last j at le stuck) low inv = stop-Inv inv c
Step-Inv (scan_done c g last j at end) low inv = scan_done-Inv inv c g last j at end
Step-Inv (win c g at same) low inv = win-Inv inv c g at same low
Step-Inv (lose c g at moved) low inv = stop-Inv inv c
Step-Inv (reload c at) low inv = reload-Inv inv c
Step-Inv (detach c cur b at lt) low inv = detach-Inv inv c cur b at
Step-Inv (free c cur b r chain kept at old) low inv = free-Inv inv c cur b r chain kept at old
Step-Inv (keep c cur b r chain kept at young) low inv = keep-Inv inv c cur b r chain kept at
Step-Inv (drained c cur b kept at) low inv = drained-Inv inv c cur b kept at
Step-Inv (repush c cur b r kept at) low inv = repush-Inv inv c cur b r kept at
Step-Inv (repushed c cur b at) low inv = repushed-Inv inv c cur b at
Step-Inv (finish c cur b at end) low inv = finish-Inv inv c

Step-epoch : {s t : World} → Step s t → s.epoch ≤ t.epoch
Step-epoch (win c g at same) = omega arith
Step-epoch {s} _ = le_refl s.epoch

init-Inv : Inv init
init-Inv = record {
  small = omega arith;
  registered = λ i q. cc;
  claims = λ i q. absurd (q refl);
  pinned = λ i q. cc;
  threads = λ i. tt;
  collectors = λ c. tt;
  bags = λ b. tt;
  gone = λ p e q. cc;
  met = λ i p q. cc;
  held = λ i p q. cc;
}

pub Reach-Inv : {s : World} → Reach s → s.epoch < unpinned → Inv s
Reach-Inv start low = init-Inv
Reach-Inv (later r st) low = Step-Inv st low (Reach-Inv r (omega (arith, Step-epoch st)))

-- In every state that participants who hold one guard at a time and collections can reach before the
-- epoch counter comes to 2^62: an allocation to which a participant has loaded a reference under its
-- present guard has not been freed, where a participant loads references only to allocations that
-- have been in the structure at some time since it stored its slot.
pub no_use_after_free :
    {s : World} (i p e : ℕ) → Reach s → s.epoch < unpinned → s.holds i p ≡ true → s.heap p ≢ freed e
no_use_after_free i p e r low h f =
    let inv = Reach-Inv r low in
    let (in_guard, since) = inv.met i p (inv.held i p h) in
    omega (arith, since e (ap stamp f), inv.gone p e f, (inv.pinned i in_guard).near)

-- In every state that participants who hold one guard at a time and collections can reach before the
-- epoch counter comes to 2^62, the epoch is at most one ahead of the epoch at which a pinned
-- participant stored its slot, although the value that it stored may be older still.
pub epoch-near_guard :
    {s : World} (i : ℕ)
    → Reach s
    → s.epoch < unpinned
    → is_pinned (s.thread i) ≡ true
    → (s.slot i ≤ s.since i) × (s.since i ≤ s.epoch) × (s.epoch ≤ s.since i + 1)
epoch-near_guard i r low q = let p = (Reach-Inv r low).pinned i q in (p.stored, p.past, p.near)
