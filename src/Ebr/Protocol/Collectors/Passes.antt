-- ===== src/Ebr/Protocol/Collectors/Passes.antt =====
-- The pass over one bag keeps the invariant: each record is freed or kept, and the kept ones go back.
use native.Mathlib.Nat.{le_refl}
use zerokv.Prelude.{ℕ, suc, ◌∷◌, ◌+◌, ◌≤◌, true, List, [], ◌≡◌, arith, refl, inl, sym, ◌∙◌}
use zerokv.Ebr.{Retired, eligible}
use zerokv.Ebr.Epochs.{eligible-old}
use zerokv.Ebr.Protocol.{reclaiming, draining, repushing, freed, World, update}
use zerokv.Ebr.Protocol.Defs.{CollectOk, Inv}
use zerokv.Ebr.Protocol.Collectors.Freeing.{moved, own, stamp_freed}
use zerokv.Ebr.Protocol.Later.{Later, All-later, ThreadOk-later}

module _ {s : World} (inv : Inv s) (c cur b : ℕ) where
  module _ (r : Retired) (chain kept : List Retired)
      (at : s.collector c ≡ draining cur b (r ∷ chain) kept) (old : eligible cur r ≡ true) where
    abbrev free_world : World
    free_world = record s {
      heap = update s.heap r.ptr (freed r.epoch);
      collector = update s.collector c (draining cur b chain kept);
    }

    detached : CollectOk s (draining cur b (r ∷ chain) kept)
    detached = own inv c (draining cur b (r ∷ chain) kept) at

    aged : r.epoch + 2 ≤ cur
    aged = eligible-old cur r (omega (arith, detached.0, inv.small)) old

    free-Later : Later s free_world
    free-Later = record {
      epochs = le_refl s.epoch;
      pins = λ k q. inl (q, le_refl (s.since k));
      stamps = λ q e h. stamp_freed s.heap r q detached.1.0 ∙ h;
      owned = λ q k h _. ground (arith, detached.1.0, h);
    }

    pub free-Inv : Inv free_world
    free-Inv = record {
      small = inv.small;
      registered = inv.registered;
      claims = inv.claims;
      pinned = λ k. ground (arith, inv.pinned k);
      threads = λ k. ThreadOk-later free-Later k (s.thread k) refl (inv.threads k);
      bags = λ d. All-later free-Later (s.bag d) (inv.bags d);
      gone = λ q e h. ground (arith, h, aged, inv.gone q e, detached.0);
      met = λ k q h. (
        (inv.met k q h).0,
        λ e t. (inv.met k q h).1 e (sym (stamp_freed s.heap r q detached.1.0) ∙ t),
      );
      held = inv.held;
      collectors =
          moved free-Later c (draining cur b chain kept)
            ((
              detached.0,
              All-later free-Later chain detached.1.1,
              All-later free-Later kept detached.2,
            ))
            inv.collectors;
    }

  module _ (r : Retired) (chain kept : List Retired)
      (at : s.collector c ≡ draining cur b (r ∷ chain) kept) where
    abbrev keep_world : World
    keep_world = record s { collector = update s.collector c (draining cur b chain (r ∷ kept)) }

    keep-Later : Later s keep_world
    keep-Later = record {
      epochs = le_refl s.epoch;
      pins = λ k q. inl (q, le_refl (s.since k));
      stamps = λ q e h. h;
      owned = λ q k h _. h;
    }

    pub keep-Inv : Inv keep_world
    keep-Inv = record {
      small = inv.small;
      registered = inv.registered;
      claims = inv.claims;
      pinned = λ k. ground (arith, inv.pinned k);
      threads = λ k. ThreadOk-later keep-Later k (s.thread k) refl (inv.threads k);
      bags = λ d. All-later keep-Later (s.bag d) (inv.bags d);
      gone = λ q e. ground (arith, inv.gone q e);
      met = inv.met;
      held = inv.held;
      collectors =
          (let detached = own inv c (draining cur b (r ∷ chain) kept) at in
            moved keep-Later c (draining cur b chain (r ∷ kept))
              ((detached.0, detached.1.1, (detached.1.0, detached.2))) inv.collectors);
    }

  module _ (kept : List Retired) (at : s.collector c ≡ draining cur b [] kept) where
    abbrev drained_world : World
    drained_world = record s { collector = update s.collector c (repushing cur b kept) }

    drained-Later : Later s drained_world
    drained-Later = record {
      epochs = le_refl s.epoch;
      pins = λ k q. inl (q, le_refl (s.since k));
      stamps = λ q e h. h;
      owned = λ q k h _. h;
    }

    pub drained-Inv : Inv drained_world
    drained-Inv = record {
      small = inv.small;
      registered = inv.registered;
      claims = inv.claims;
      pinned = λ k. ground (arith, inv.pinned k);
      threads = λ k. ThreadOk-later drained-Later k (s.thread k) refl (inv.threads k);
      bags = λ d. All-later drained-Later (s.bag d) (inv.bags d);
      gone = λ q e. ground (arith, inv.gone q e);
      met = inv.met;
      held = inv.held;
      collectors =
          (let detached = own inv c (draining cur b [] kept) at in
            moved drained-Later c (repushing cur b kept) ((detached.0, detached.2)) inv.collectors);
    }

  module _ (r : Retired) (kept : List Retired)
      (at : s.collector c ≡ repushing cur b (r ∷ kept)) where
    abbrev repush_world : World
    repush_world = record s {
      bag = update s.bag b (r ∷ s.bag b);
      collector = update s.collector c (repushing cur b kept);
    }

    repush-Later : Later s repush_world
    repush-Later = record {
      epochs = le_refl s.epoch;
      pins = λ k q. inl (q, le_refl (s.since k));
      stamps = λ q e h. h;
      owned = λ q k h _. h;
    }

    pub repush-Inv : Inv repush_world
    repush-Inv = record {
      small = inv.small;
      registered = inv.registered;
      claims = inv.claims;
      pinned = λ k. ground (arith, inv.pinned k);
      threads = λ k. ThreadOk-later repush-Later k (s.thread k) refl (inv.threads k);
      bags = λ d.
          ground (arith, inv.bags d, inv.bags b, (own inv c (repushing cur b (r ∷ kept)) at).1.0);
      gone = λ q e. ground (arith, inv.gone q e);
      met = inv.met;
      held = inv.held;
      collectors =
          (let detached = own inv c (repushing cur b (r ∷ kept)) at in
            moved repush-Later c (repushing cur b kept) ((detached.0, detached.1.1))
              inv.collectors);
    }

  module _ (at : s.collector c ≡ repushing cur b []) where
    abbrev repushed_world : World
    repushed_world = record s { collector = update s.collector c (reclaiming cur (suc b)) }

    repushed-Later : Later s repushed_world
    repushed-Later = record {
      epochs = le_refl s.epoch;
      pins = λ k q. inl (q, le_refl (s.since k));
      stamps = λ q e h. h;
      owned = λ q k h _. h;
    }

    pub repushed-Inv : Inv repushed_world
    repushed-Inv = record {
      small = inv.small;
      registered = inv.registered;
      claims = inv.claims;
      pinned = λ k. ground (arith, inv.pinned k);
      threads = λ k. ThreadOk-later repushed-Later k (s.thread k) refl (inv.threads k);
      bags = λ d. All-later repushed-Later (s.bag d) (inv.bags d);
      gone = λ q e. ground (arith, inv.gone q e);
      met = inv.met;
      held = inv.held;
      collectors =
          moved repushed-Later c (reclaiming cur (suc b)) ((own inv c (repushing cur b []) at).0)
            inv.collectors;
    }
