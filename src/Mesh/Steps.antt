-- ===== src/Mesh/Steps.antt =====
-- Every move of a worker keeps what holds of the mesh.
use mathlib.Core.List.{append_assoc}
use zerokv.Prelude.{
  ℕ, suc, ◌<◌, ◌≡◌, ◌≢◌, refl, sym, ap, ◌∙◌, subst, List, [], ◌∷◌, ◌++◌, length, length-append,
  arith, ==_refl, ==_ne, inl, inr,
}
use zerokv.Index.{Bytes, route}
use zerokv.Mesh.{
  Item, Pc, producing, sending, quiescing, saw_done, saw_sent, exited, nothing, taken, World, upd,
  set_row, Step, put_local, put_remote, push, pop, insert, count, finish, see_done, see_sent,
  see_more, exit,
}
use zerokv.Mesh.Sums.{upd_same, upd_other}
use zerokv.Mesh.Flow.{mine, hand, pending, hands, flag, PcOk, Seen, Inv, Seen-early, busy, row-Inv}
use zerokv.Mesh.Delivery.{same_or_not, take-Inv, insert-Inv, under_way, count-Inv, queue_sum}

module _ {n mask : ℕ} {work : ℕ → List Item} {s : World} (inv : Inv n mask work s) where
  -- A worker that has seen something moves on to what it may rely on then.
  look-Inv :
      (i : ℕ) (p : Pc)
      → i < n
      → flag (s.row i).pc ≡ 1
      → flag p ≡ 1
      → hands (s.row i).pc ≡ hands p
      → ((j : ℕ) → hand p j ≡ hand (s.row i).pc j)
      → PcOk n mask i p
      → Seen n s.phase1_done s.sent s.applied p
      → Inv n mask work (set_row s i (record (s.row i) { pc = p }))
  look-Inv i p lt up up' weighs holds ok seen =
      row-Inv inv i (record (s.row i) { pc = p }) lt s.sent s.phase1_done
        (record { pcs = ok; self = (inv.rows i).self; ended = λ _. (inv.rows i).ended up })
        (λ j. ap (λ h. (s.row i).queue j ++ (h ++ mine mask j (s.row i).items)) (holds j))
        (omega (arith, weighs)) (omega (arith, up, up')) inv.seen seen

  -- The first item leaves the workload.
  module _ (i : ℕ) (key val : Bytes) (rest : List Item)
      (e : (s.row i).items ≡ (key, val) ∷ rest) where
    mine_here : route mask key ≡ i → mine mask i (s.row i).items ≡ (key, val) ∷ mine mask i rest
    mine_here own = rw (e, own, ==_refl i) refl

    mine_away : (j : ℕ) → route mask key ≢ j → mine mask j (s.row i).items ≡ mine mask j rest
    mine_away j ne = rw (e, ==_ne (route mask key) j ne) refl

  put_local-Inv :
      (i : ℕ) (key val : Bytes) (rest : List Item)
      → i < n
      → (s.row i).pc ≡ producing
      → s.applying i ≡ nothing
      → (s.row i).items ≡ (key, val) ∷ rest
      → route mask key ≡ i
      → Inv n mask work (record (set_row s i (record (s.row i) { items = rest })) {
        applying = upd s.applying i (taken i (key, val));
        sent = suc s.sent;
      })
  put_local-Inv i key val rest lt pc idle e own =
      take-Inv inv i i (key, val) (record (s.row i) { items = rest }) (suc s.sent) lt lt idle
        (record {
          pcs = (inv.rows i).pcs;
          self = (inv.rows i).self;
          ended = λ up. absurd (omega (arith, up, ap flag pc));
        })
        (rw ((inv.rows i).self, pc) (sym (mine_here i key val rest e own)))
        (λ j ne.
          ap (λ l. (s.row i).queue j ++ (hand (s.row i).pc j ++ l))
            (sym (mine_away i key val rest e j (λ same. ne (sym same ∙ own)))))
        (omega arith) refl
        (λ k.
          Seen-early n s.phase1_done s.phase1_done s.sent (suc s.sent) s.applied s.applied
            (s.row k).pc (busy inv i lt (ap flag pc)) (inv.seen k))
        (rw pc tt)

  put_remote-Inv :
      (i : ℕ) (key val : Bytes) (rest : List Item)
      → i < n
      → (s.row i).pc ≡ producing
      → (s.row i).items ≡ (key, val) ∷ rest
      → route mask key ≢ i
      → route mask key < n
      → Inv n mask work
          (record (set_row s i
            (record (s.row i) { items = rest; pc = sending key val (route mask key) })) {
              sent = suc s.sent;
            })
  put_remote-Inv i key val rest lt pc e away within =
      row-Inv inv i (record (s.row i) { items = rest; pc = sending key val (route mask key) }) lt
        (suc s.sent) s.phase1_done
        (record {
          pcs = (within, away);
          self = (inv.rows i).self;
          ended = λ up. absurd (omega (arith, up));
        })
        (λ j. ap (λ l. (s.row i).queue j ++ l) (moved j)) (omega (arith, ap hands pc))
        (omega (arith, ap flag pc))
        (λ k.
          Seen-early n s.phase1_done s.phase1_done s.sent (suc s.sent) s.applied s.applied
            (s.row k).pc (busy inv i lt (ap flag pc)) (inv.seen k))
        tt
    where
      moved :
          (j : ℕ)
          → hand (sending key val (route mask key)) j ++ mine mask j rest
            ≡ hand (s.row i).pc j ++ mine mask j (s.row i).items
      moved j = elim (same_or_not (route mask key) j) [
        | inl here ↦ rw (pc, e, here, ==_refl j) refl
        | inr ne ↦ rw (pc, e, ==_ne (route mask key) j ne) refl
      ]

  push-Inv :
      (i : ℕ) (key val : Bytes) (dst : ℕ)
      → i < n
      → (s.row i).pc ≡ sending key val dst
      → Inv n mask work (
          set_row s i (record (s.row i) {
            pc = producing;
            queue = upd (s.row i).queue dst ((s.row i).queue dst ++ (key, val) ∷ []);
          }))
  push-Inv i key val dst lt pc =
      row-Inv inv i (record (s.row i) { pc = producing; queue = upd (s.row i).queue dst grown }) lt
        s.sent s.phase1_done
        (record {
          pcs = tt;
          self =
              upd_other (s.row i).queue dst grown i (λ same. sound.1 (sym same))
              ∙ (inv.rows i).self;
          ended = λ up. absurd (omega (arith, up));
        })
        moved
        (omega (
          arith,
          ap hands pc,
          queue_sum n dst (s.row i).queue grown sound.0,
          length-append ((s.row i).queue dst) ((key, val) ∷ []),
        ))
        (omega (arith, ap flag pc)) inv.seen tt
    where
      grown : List Item
      grown = (s.row i).queue dst ++ (key, val) ∷ []

      sound : (dst < n) × (dst ≢ i)
      sound = subst (PcOk n mask i) pc (inv.rows i).pcs

      moved :
          (j : ℕ)
          → upd (s.row i).queue dst grown j ++ mine mask j (s.row i).items
            ≡ pending mask j (s.row i)
      moved j = elim (same_or_not dst j) [
        | inl here ↦
            subst
              (λ k.
                upd (s.row i).queue dst grown k ++ mine mask k (s.row i).items
                ≡ pending mask k (s.row i))
              here
              (rw (==_refl dst, pc)
                (rw (==_refl dst) (
                  append_assoc ((s.row i).queue dst) ((key, val) ∷ [])
                    (mine mask dst (s.row i).items))))
        | inr ne ↦ rw (==_ne dst j ne, pc) (rw (==_ne dst j ne) refl)
      ]

  Seen-counted :
      (p : Pc)
      → s.applied < s.sent
      → Seen n s.phase1_done s.sent s.applied p
      → Seen n s.phase1_done s.sent (suc s.applied) p
  Seen-counted producing lt h = tt
  Seen-counted (sending key val dst) lt h = tt
  Seen-counted quiescing lt h = tt
  Seen-counted saw_done lt h = h
  Seen-counted (saw_sent m) lt h = h
  Seen-counted exited lt h = absurd (omega (arith, h.1))

  pop-Inv :
      (src dst : ℕ) (item : Item) (rest : List Item)
      → src < n
      → dst < n
      → s.applying dst ≡ nothing
      → (s.row src).queue dst ≡ item ∷ rest
      → Inv n mask work
          (record (set_row s src (record (s.row src) { queue = upd (s.row src).queue dst rest })) {
            applying = upd s.applying dst (taken src item);
          })
  pop-Inv src dst item rest lt lt' idle e =
      take-Inv inv src dst item (record (s.row src) { queue = upd (s.row src).queue dst rest })
        s.sent lt lt' idle
        (record {
          pcs = (inv.rows src).pcs;
          self = upd_other (s.row src).queue dst rest src apart ∙ (inv.rows src).self;
          ended = (inv.rows src).ended;
        })
        (rw (upd_same (s.row src).queue dst rest, e) refl)
        (λ j ne.
          ap (λ l. l ++ (hand (s.row src).pc j ++ mine mask j (s.row src).items))
            (upd_other (s.row src).queue dst rest j ne))
        (omega (arith, queue_sum n dst (s.row src).queue rest lt', ap length e)) refl inv.seen
        (inv.seen src)
    where
      apart : src ≢ dst
      apart same = nil-cons (sym (inv.rows src).self ∙ ap (s.row src).queue same ∙ e)
        where
          nil-cons : [] ≢ item ∷ rest
          nil-cons b = cc

  finish-Inv :
      (i : ℕ)
      → i < n
      → (s.row i).pc ≡ producing
      → (s.row i).items ≡ []
      → Inv n mask work (record (set_row s i (record (s.row i) { pc = quiescing })) {
        phase1_done = suc s.phase1_done;
      })
  finish-Inv i lt pc e =
      row-Inv inv i (record (s.row i) { pc = quiescing }) lt s.sent (suc s.phase1_done)
        (record { pcs = tt; self = (inv.rows i).self; ended = λ _. e }) (λ j. rw pc refl)
        (omega (arith, ap hands pc)) (omega (arith, ap flag pc))
        (λ k.
          Seen-early n s.phase1_done (suc s.phase1_done) s.sent s.sent s.applied s.applied
            (s.row k).pc (busy inv i lt (ap flag pc)) (inv.seen k))
        tt

-- Every step keeps the invariant, where every key has a worker.
pub Step-Inv :
    {n mask : ℕ} {work : ℕ → List Item} {s t : World}
    → ((key : Bytes) → route mask key < n)
    → Inv n mask work s
    → Step n mask s t
    → Inv n mask work t
Step-Inv owned inv (put_local i key val rest lt pc idle e own) =
    put_local-Inv inv i key val rest lt pc idle e own
Step-Inv owned inv (put_remote i key val rest lt pc idle e away) =
    put_remote-Inv inv i key val rest lt pc e away (owned key)
Step-Inv owned inv (push i key val dst lt pc idle room) = push-Inv inv i key val dst lt pc
Step-Inv owned inv (pop src dst item rest lt lt' alive idle e) =
    pop-Inv inv src dst item rest lt lt' idle e
Step-Inv owned inv (insert src dst (key, val) lt held) = insert-Inv inv src dst key val lt held
Step-Inv {s = s} owned inv (count dst lt held) =
    count-Inv inv dst lt held
      (λ k. Seen-counted inv (s.row k).pc (under_way inv dst lt held) (inv.seen k))
Step-Inv owned inv (finish i lt pc idle e) = finish-Inv inv i lt pc e
Step-Inv owned inv (see_done i lt pc idle e) =
    look-Inv inv i saw_done lt (ap flag pc) refl (ap hands pc) (λ j. rw pc refl) tt e
Step-Inv owned inv (see_sent i lt pc idle) =
    look-Inv inv i (saw_sent _) lt (ap flag pc) refl (ap hands pc) (λ j. rw pc refl) tt
      (subst (Seen _ _ _ _) pc (inv.seen i), refl)
Step-Inv owned inv (see_more i m lt pc idle ne) =
    look-Inv inv i quiescing lt (ap flag pc) refl (ap hands pc) (λ j. rw pc refl) tt tt
Step-Inv owned inv (exit i m lt pc idle e) =
    look-Inv inv i exited lt (ap flag pc) refl (ap hands pc) (λ j. rw pc refl) tt
      (let seen = subst (Seen _ _ _ _) pc (inv.seen i) in (seen.0, sym seen.1 ∙ e))
