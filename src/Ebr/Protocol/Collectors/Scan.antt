-- ===== src/Ebr/Protocol/Collectors/Scan.antt =====
-- The scan of the slots and the compare-exchange on the epoch keep the invariant.
use native.Mathlib.Nat.{le_refl}
use zerokv.Prelude.{ℕ, suc, ◌+◌, ◌-◌, ◌<◌, min, false, ◌≡◌, arith, refl, inl}
use zerokv.Ebr.{n_slots, unpinned, blocks}
use zerokv.Ebr.Protocol.{off, began, scanning, advancing, advanced, World, update}
use zerokv.Ebr.Protocol.Defs.{Inv}
use zerokv.Ebr.Protocol.Collectors.Freeing.{moved, own}
use zerokv.Ebr.Protocol.Later.{Later, All-later, ThreadOk-later}

module _ {s : World} (inv : Inv s) (c : ℕ) where
  module _ (at : s.collector c ≡ off) where
    abbrev begin_world : World
    begin_world = record s { collector = update s.collector c (began s.epoch) }

    begin-Later : Later s begin_world
    begin-Later = record {
      epochs = le_refl s.epoch;
      pins = λ k q. inl (q, le_refl (s.since k));
      stamps = λ q e h. h;
      owned = λ q k h _. h;
    }

    pub begin-Inv : Inv begin_world
    begin-Inv = record {
      small = inv.small;
      registered = inv.registered;
      claims = inv.claims;
      pinned = λ k. ground (arith, inv.pinned k);
      threads = λ k. ThreadOk-later begin-Later k (s.thread k) refl (inv.threads k);
      bags = λ b. All-later begin-Later (s.bag b) (inv.bags b);
      gone = λ q e. ground (arith, inv.gone q e);
      met = inv.met;
      held = inv.held;
      collectors = moved begin-Later c (began s.epoch) (le_refl s.epoch) inv.collectors;
    }

  module _ (g : ℕ) (at : s.collector c ≡ began g) where
    abbrev scan_world : World
    scan_world = record s {
      collector = update s.collector c (scanning g (min s.hwm (n_slots - 1)) 0);
    }

    scan-Later : Later s scan_world
    scan-Later = record {
      epochs = le_refl s.epoch;
      pins = λ k q. inl (q, le_refl (s.since k));
      stamps = λ q e h. h;
      owned = λ q k h _. h;
    }

    pub scan-Inv : Inv scan_world
    scan-Inv = record {
      small = inv.small;
      registered = inv.registered;
      claims = inv.claims;
      pinned = λ k. ground (arith, inv.pinned k);
      threads = λ k. ThreadOk-later scan-Later k (s.thread k) refl (inv.threads k);
      bags = λ b. All-later scan-Later (s.bag b) (inv.bags b);
      gone = λ q e. ground (arith, inv.gone q e);
      met = inv.met;
      held = inv.held;
      collectors =
          moved scan-Later c (scanning g (min s.hwm (n_slots - 1)) 0)
            ((own inv c (began g) at, λ i q side. absurd (ground (arith, inv.registered i))))
            inv.collectors;
    }

  module _ (g last j : ℕ) (at : s.collector c ≡ scanning g last j)
      (clear : blocks g (s.slot j) ≡ false) where
    abbrev pass_world : World
    pass_world = record s { collector = update s.collector c (scanning g last (suc j)) }

    pass-Later : Later s pass_world
    pass-Later = record {
      epochs = le_refl s.epoch;
      pins = λ k q. inl (q, le_refl (s.since k));
      stamps = λ q e h. h;
      owned = λ q k h _. h;
    }

    pub pass-Inv : Inv pass_world
    pass-Inv = record {
      small = inv.small;
      registered = inv.registered;
      claims = inv.claims;
      pinned = λ k. ground (arith, inv.pinned k);
      threads = λ k. ThreadOk-later pass-Later k (s.thread k) refl (inv.threads k);
      bags = λ b. All-later pass-Later (s.bag b) (inv.bags b);
      gone = λ q e. ground (arith, inv.gone q e);
      met = inv.met;
      held = inv.held;
      collectors =
          moved pass-Later c (scanning g last (suc j))
            ((
              (own inv c (scanning g last j) at).0,
              λ i q side.
                  ground (arith, (own inv c (scanning g last j) at).1 i q, inv.pinned i, inv.small),
            ))
            inv.collectors;
    }

  module _ where
    abbrev stop_world : World
    stop_world = record s { collector = update s.collector c (advanced) }

    stop-Later : Later s stop_world
    stop-Later = record {
      epochs = le_refl s.epoch;
      pins = λ k q. inl (q, le_refl (s.since k));
      stamps = λ q e h. h;
      owned = λ q k h _. h;
    }

    pub stop-Inv : Inv stop_world
    stop-Inv = record {
      small = inv.small;
      registered = inv.registered;
      claims = inv.claims;
      pinned = λ k. ground (arith, inv.pinned k);
      threads = λ k. ThreadOk-later stop-Later k (s.thread k) refl (inv.threads k);
      bags = λ b. All-later stop-Later (s.bag b) (inv.bags b);
      gone = λ q e. ground (arith, inv.gone q e);
      met = inv.met;
      held = inv.held;
      collectors = moved stop-Later c (advanced) (tt) inv.collectors;
    }

  module _ (g last j : ℕ) (at : s.collector c ≡ scanning g last j) (end : last < j) where
    abbrev scan_done_world : World
    scan_done_world = record s { collector = update s.collector c (advancing g) }

    scan_done-Later : Later s scan_done_world
    scan_done-Later = record {
      epochs = le_refl s.epoch;
      pins = λ k q. inl (q, le_refl (s.since k));
      stamps = λ q e h. h;
      owned = λ q k h _. h;
    }

    pub scan_done-Inv : Inv scan_done_world
    scan_done-Inv = record {
      small = inv.small;
      registered = inv.registered;
      claims = inv.claims;
      pinned = λ k. ground (arith, inv.pinned k);
      threads = λ k. ThreadOk-later scan_done-Later k (s.thread k) refl (inv.threads k);
      bags = λ b. All-later scan_done-Later (s.bag b) (inv.bags b);
      gone = λ q e. ground (arith, inv.gone q e);
      met = inv.met;
      held = inv.held;
      collectors =
          moved scan_done-Later c (advancing g)
            ((
              (own inv c (scanning g last j) at).0,
              λ i q. ground (arith, (own inv c (scanning g last j) at).1 i q),
            ))
            inv.collectors;
    }

  module _ (g : ℕ) (at : s.collector c ≡ advancing g) (same : s.epoch ≡ g)
      (low : g + 1 < unpinned) where
    abbrev win_world : World
    win_world = record s { epoch = g + 1; collector = update s.collector c (advanced) }

    win-Later : Later s win_world
    win-Later = record {
      epochs = omega arith;
      pins = λ k q. inl (q, le_refl (s.since k));
      stamps = λ q e h. h;
      owned = λ q k h _. h;
    }

    pub win-Inv : Inv win_world
    win-Inv = record {
      small = low;
      registered = inv.registered;
      claims = inv.claims;
      pinned = λ k q. ground (arith, inv.pinned k q, (own inv c (advancing g) at).1 k q);
      threads = λ k. ThreadOk-later win-Later k (s.thread k) refl (inv.threads k);
      bags = λ b. All-later win-Later (s.bag b) (inv.bags b);
      gone = λ q e. ground (arith, inv.gone q e);
      met = inv.met;
      held = inv.held;
      collectors = moved win-Later c (advanced) (tt) inv.collectors;
    }
