-- ===== src/Ebr/Protocol/Threads/Pins.antt =====
-- Registration, `pin` and the drop of a guard keep the invariant.
use native.Mathlib.Nat.{le_refl}
use zerokv.Prelude.{ℕ, ◌<◌, max, false, ◌≡◌, arith}
use zerokv.Ebr.{n_slots, unpinned}
use zerokv.Ebr.Protocol.{absent, claimed, idle, loaded, active, is_linked, World, update}
use zerokv.Ebr.Protocol.Defs.{Inv}
use zerokv.Ebr.Protocol.Later.{Later, All-later, CollectOk-later}

module _ {s : World} (inv : Inv s) (i : ℕ) where
  module _ (lt : i < n_slots) (at : s.thread i ≡ absent) where
    abbrev claim_world : World
    claim_world = record s { slot = update s.slot i unpinned; thread = update s.thread i claimed }

    claim-Later : Later s claim_world
    claim-Later = record {
      epochs = le_refl s.epoch;
      pins = λ k. ground (arith, inv.pinned k);
      stamps = λ q e. ground arith;
      owned = λ q k. ground arith;
    }

    pub claim-Inv : Inv claim_world
    claim-Inv = record {
      small = inv.small;
      registered = λ k. ground (arith, inv.registered k);
      claims = λ k. ground (arith, inv.claims k);
      pinned = λ k. ground (arith, inv.pinned k);
      threads = λ k. ground (arith, inv.threads k);
      collectors = λ c. CollectOk-later claim-Later (s.collector c) (inv.collectors c);
      bags = λ b. All-later claim-Later (s.bag b) (inv.bags b);
      gone = λ q e. ground (arith, inv.gone q e);
      met = λ k q. ground (arith, inv.met k q);
      held = λ k q. ground (arith, inv.held k q);
    }

  module _ (at : s.thread i ≡ claimed) where
    abbrev raise_world : World
    raise_world = record s { hwm = max s.hwm i; thread = update s.thread i idle }

    raise-Later : Later s raise_world
    raise-Later = record {
      epochs = le_refl s.epoch;
      pins = λ k. ground (arith, inv.pinned k);
      stamps = λ q e. ground arith;
      owned = λ q k. ground arith;
    }

    pub raise-Inv : Inv raise_world
    raise-Inv = record {
      small = inv.small;
      registered = λ k. ground (arith, inv.registered k, inv.claims i);
      claims = λ k. ground (arith, inv.claims k);
      pinned = λ k. ground (arith, inv.pinned k);
      threads = λ k. ground (arith, inv.threads k);
      collectors = λ c. CollectOk-later raise-Later (s.collector c) (inv.collectors c);
      bags = λ b. All-later raise-Later (s.bag b) (inv.bags b);
      gone = λ q e. ground (arith, inv.gone q e);
      met = λ k q. ground (arith, inv.met k q);
      held = λ k q. ground (arith, inv.held k q);
    }

  module _ (at : s.thread i ≡ idle) where
    abbrev pin_load_world : World
    pin_load_world = record s { thread = update s.thread i (loaded s.epoch) }

    pin_load-Later : Later s pin_load_world
    pin_load-Later = record {
      epochs = le_refl s.epoch;
      pins = λ k. ground (arith, inv.pinned k);
      stamps = λ q e. ground arith;
      owned = λ q k. ground arith;
    }

    pub pin_load-Inv : Inv pin_load_world
    pin_load-Inv = record {
      small = inv.small;
      registered = λ k. ground (arith, inv.registered k, inv.registered i);
      claims = λ k. ground (arith, inv.claims k, inv.registered i);
      pinned = λ k. ground (arith, inv.pinned k);
      threads = λ k. ground (arith, inv.threads k);
      collectors = λ c. CollectOk-later pin_load-Later (s.collector c) (inv.collectors c);
      bags = λ b. All-later pin_load-Later (s.bag b) (inv.bags b);
      gone = λ q e. ground (arith, inv.gone q e);
      met = λ k q. ground (arith, inv.met k q);
      held = λ k q. ground (arith, inv.held k q);
    }

  module _ (e : ℕ) (at : s.thread i ≡ loaded e) where
    abbrev pin_store_world : World
    pin_store_world = record s {
      slot = update s.slot i e;
      thread = update s.thread i active;
      since = update s.since i s.epoch;
      met = update s.met i (λ p. is_linked (s.heap p));
      holds = update s.holds i (λ _. false);
    }

    pin_store-Later : Later s pin_store_world
    pin_store-Later = record {
      epochs = le_refl s.epoch;
      pins = λ k. ground (arith, inv.pinned k);
      stamps = λ q e. ground arith;
      owned = λ q k. ground arith;
    }

    pub pin_store-Inv : Inv pin_store_world
    pin_store-Inv = record {
      small = inv.small;
      registered = λ k. ground (arith, inv.registered k, inv.registered i);
      claims = λ k. ground (arith, inv.claims k, inv.claims i);
      pinned = λ k. ground (arith, inv.pinned k, inv.threads i);
      threads = λ k. ground (arith, inv.threads k);
      collectors = λ c. CollectOk-later pin_store-Later (s.collector c) (inv.collectors c);
      bags = λ b. All-later pin_store-Later (s.bag b) (inv.bags b);
      gone = λ q e. ground (arith, inv.gone q e);
      met = λ k q. ground (arith, inv.met k q);
      held = λ k q. ground (arith, inv.held k q);
    }

  module _ (at : s.thread i ≡ active) where
    abbrev unpin_world : World
    unpin_world = record s {
      slot = update s.slot i unpinned;
      thread = update s.thread i idle;
      met = update s.met i (λ _. false);
      holds = update s.holds i (λ _. false);
    }

    unpin-Later : Later s unpin_world
    unpin-Later = record {
      epochs = le_refl s.epoch;
      pins = λ k. ground (arith, inv.pinned k);
      stamps = λ q e. ground arith;
      owned = λ q k. ground arith;
    }

    pub unpin-Inv : Inv unpin_world
    unpin-Inv = record {
      small = inv.small;
      registered = λ k. ground (arith, inv.registered k, inv.registered i);
      claims = λ k. ground (arith, inv.claims k, inv.claims i);
      pinned = λ k. ground (arith, inv.pinned k);
      threads = λ k. ground (arith, inv.threads k);
      collectors = λ c. CollectOk-later unpin-Later (s.collector c) (inv.collectors c);
      bags = λ b. All-later unpin-Later (s.bag b) (inv.bags b);
      gone = λ q e. ground (arith, inv.gone q e);
      met = λ k q. ground (arith, inv.met k q);
      held = λ k q. ground (arith, inv.held k q);
    }
