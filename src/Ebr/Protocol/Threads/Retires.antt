-- ===== src/Ebr/Protocol/Threads/Retires.antt =====
-- Loading a reference, unlinking and `retire` keep the invariant.
use native.Mathlib.Nat.{le_refl}
use zerokv.Prelude.{ℕ, ◌%◌, true, ◌∷◌, ◌≡◌, arith}
use zerokv.Ebr.{n_bags}
use zerokv.Ebr.Protocol.{active, unlinking, tagging, linked, unlinked, tagged, World, update}
use zerokv.Ebr.Protocol.Defs.{Inv}
use zerokv.Ebr.Protocol.Later.{Later, All-later, CollectOk-later}

module _ {s : World} (inv : Inv s) (i : ℕ) where
  module _ (p : ℕ) (at : s.thread i ≡ active) (there : s.met i p ≡ true) where
    abbrev load_world : World
    load_world = record s { holds = update s.holds i (update (s.holds i) p true) }

    load-Later : Later s load_world
    load-Later = record {
      epochs = le_refl s.epoch;
      pins = λ k. ground (arith, inv.pinned k);
      stamps = λ q e. ground arith;
      owned = λ q k. ground arith;
    }

    pub load-Inv : Inv load_world
    load-Inv = record {
      small = inv.small;
      registered = λ k. ground (arith, inv.registered k);
      claims = λ k. ground (arith, inv.claims k);
      pinned = λ k. ground (arith, inv.pinned k);
      threads = λ k. ground (arith, inv.threads k);
      collectors = λ c. CollectOk-later load-Later (s.collector c) (inv.collectors c);
      bags = λ b. All-later load-Later (s.bag b) (inv.bags b);
      gone = λ q e. ground (arith, inv.gone q e);
      met = λ k q. ground (arith, inv.met k q);
      held = λ k q. ground (arith, inv.held k q);
    }

  module _ (p : ℕ) (at : s.thread i ≡ active) (there : s.heap p ≡ linked) where
    abbrev unlink_world : World
    unlink_world = record s {
      heap = update s.heap p (unlinked i);
      thread = update s.thread i (unlinking p);
    }

    unlink-Later : Later s unlink_world
    unlink-Later = record {
      epochs = le_refl s.epoch;
      pins = λ k. ground (arith, inv.pinned k, inv.pinned i);
      stamps = λ q e. ground arith;
      owned = λ q k. ground arith;
    }

    pub unlink-Inv : Inv unlink_world
    unlink-Inv = record {
      small = inv.small;
      registered = λ k. ground (arith, inv.registered k, inv.registered i);
      claims = λ k. ground (arith, inv.claims k, inv.claims i);
      pinned = λ k. ground (arith, inv.pinned k, inv.pinned i);
      threads = λ k. ground (arith, inv.threads k);
      collectors = λ c. CollectOk-later unlink-Later (s.collector c) (inv.collectors c);
      bags = λ b. All-later unlink-Later (s.bag b) (inv.bags b);
      gone = λ q e. ground (arith, inv.gone q e);
      met = λ k q. ground (arith, inv.met k q);
      held = λ k q. ground (arith, inv.held k q);
    }

  module _ (p : ℕ) (at : s.thread i ≡ unlinking p) where
    abbrev tag_world : World
    tag_world = record s {
      heap = update s.heap p (tagged s.epoch);
      thread = update s.thread i (tagging p s.epoch);
    }

    tag-Later : Later s tag_world
    tag-Later = record {
      epochs = le_refl s.epoch;
      pins = λ k. ground (arith, inv.pinned k, inv.pinned i);
      stamps = λ q e. ground (arith, inv.threads i);
      owned = λ q k. ground (arith, inv.threads i);
    }

    pub tag-Inv : Inv tag_world
    tag-Inv = record {
      small = inv.small;
      registered = λ k. ground (arith, inv.registered k, inv.registered i);
      claims = λ k. ground (arith, inv.claims k, inv.claims i);
      pinned = λ k. ground (arith, inv.pinned k, inv.pinned i);
      threads = λ k. ground (arith, inv.threads k, inv.threads i);
      collectors = λ c. CollectOk-later tag-Later (s.collector c) (inv.collectors c);
      bags = λ b. All-later tag-Later (s.bag b) (inv.bags b);
      gone = λ q e. ground (arith, inv.gone q e);
      met = λ k q. ground (arith, inv.met k q, inv.pinned k);
      held = λ k q. ground (arith, inv.held k q);
    }

  module _ (p e drop_fn : ℕ) (at : s.thread i ≡ tagging p e) where
    abbrev push_world : World
    push_world = record s {
      bag =
          update s.bag (e % n_bags)
            (record { ptr = p; drop_fn = drop_fn; epoch = e } ∷ s.bag (e % n_bags));
      thread = update s.thread i active;
    }

    push-Later : Later s push_world
    push-Later = record {
      epochs = le_refl s.epoch;
      pins = λ k. ground (arith, inv.pinned k, inv.pinned i);
      stamps = λ q e. ground arith;
      owned = λ q k. ground arith;
    }

    pub push-Inv : Inv push_world
    push-Inv = record {
      small = inv.small;
      registered = λ k. ground (arith, inv.registered k, inv.registered i);
      claims = λ k. ground (arith, inv.claims k, inv.claims i);
      pinned = λ k. ground (arith, inv.pinned k, inv.pinned i);
      threads = λ k. ground (arith, inv.threads k);
      collectors = λ c. CollectOk-later push-Later (s.collector c) (inv.collectors c);
      bags = λ b. ground (arith, inv.bags b, inv.threads i);
      gone = λ q e. ground (arith, inv.gone q e);
      met = λ k q. ground (arith, inv.met k q);
      held = λ k q. ground (arith, inv.held k q);
    }
