-- ===== src/Ebr/Protocol/Collectors/Reclaim.antt =====
-- The passes over the bags keep the invariant.
use native.Mathlib.Nat.{le_refl}
use zerokv.Prelude.{ℕ, [], ◌≡◌, arith, refl, inl}
use zerokv.Ebr.Protocol.{off, reclaiming, draining, World, update}
use zerokv.Ebr.Protocol.Defs.{Inv}
use zerokv.Ebr.Protocol.Collectors.Freeing.{moved, own}
use zerokv.Ebr.Protocol.Later.{Later, All-later, ThreadOk-later}

module _ {s : World} (inv : Inv s) (c : ℕ) where
  module _ where
    abbrev reload_world : World
    reload_world = record s { collector = update s.collector c (reclaiming s.epoch 0) }

    reload-Later : Later s reload_world
    reload-Later = record {
      epochs = le_refl s.epoch;
      pins = λ k q. inl (q, le_refl (s.since k));
      stamps = λ q e h. h;
      owned = λ q k h _. h;
    }

    pub reload-Inv : Inv reload_world
    reload-Inv = record {
      small = inv.small;
      registered = inv.registered;
      claims = inv.claims;
      pinned = λ k. ground (arith, inv.pinned k);
      threads = λ k. ThreadOk-later reload-Later k (s.thread k) refl (inv.threads k);
      bags = λ b. All-later reload-Later (s.bag b) (inv.bags b);
      gone = λ q e. ground (arith, inv.gone q e);
      met = inv.met;
      held = inv.held;
      collectors = moved reload-Later c (reclaiming s.epoch 0) (le_refl s.epoch) inv.collectors;
    }

  module _ (cur b : ℕ) (at : s.collector c ≡ reclaiming cur b) where
    abbrev detach_world : World
    detach_world = record s {
      bag = update s.bag b [];
      collector = update s.collector c (draining cur b (s.bag b) []);
    }

    detach-Later : Later s detach_world
    detach-Later = record {
      epochs = le_refl s.epoch;
      pins = λ k q. inl (q, le_refl (s.since k));
      stamps = λ q e h. h;
      owned = λ q k h _. h;
    }

    pub detach-Inv : Inv detach_world
    detach-Inv = record {
      small = inv.small;
      registered = inv.registered;
      claims = inv.claims;
      pinned = λ k. ground (arith, inv.pinned k);
      threads = λ k. ThreadOk-later detach-Later k (s.thread k) refl (inv.threads k);
      bags = λ d. ground (arith, inv.bags d);
      gone = λ q e. ground (arith, inv.gone q e);
      met = inv.met;
      held = inv.held;
      collectors =
          moved detach-Later c (draining cur b (s.bag b) [])
            ((own inv c (reclaiming cur b) at, inv.bags b, tt)) inv.collectors;
    }

  module _ where
    abbrev finish_world : World
    finish_world = record s { collector = update s.collector c (off) }

    finish-Later : Later s finish_world
    finish-Later = record {
      epochs = le_refl s.epoch;
      pins = λ k q. inl (q, le_refl (s.since k));
      stamps = λ q e h. h;
      owned = λ q k h _. h;
    }

    pub finish-Inv : Inv finish_world
    finish-Inv = record {
      small = inv.small;
      registered = inv.registered;
      claims = inv.claims;
      pinned = λ k. ground (arith, inv.pinned k);
      threads = λ k. ThreadOk-later finish-Later k (s.thread k) refl (inv.threads k);
      bags = λ b. All-later finish-Later (s.bag b) (inv.bags b);
      gone = λ q e. ground (arith, inv.gone q e);
      met = inv.met;
      held = inv.held;
      collectors = moved finish-Later c (off) (tt) inv.collectors;
    }
