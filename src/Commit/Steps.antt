-- ===== src/Commit/Steps.antt =====
-- Every step keeps what holds of the records and the file.
use mathlib.Core.Option.{some-injective}
use zerokv.Prelude.{
  ℕ, ◌+◌, ◌≡◌, ◌≢◌, inl, inr, refl, sym, ap, ◌∙◌, subst, Bool, true, false, List, [], ◌∷◌, length,
  ◌==◌, Bool-cases, ==_iff,
}
use zerokv.Words.{wrapping_add}
use zerokv.Regbuf.{File, IsFile, Outcome}
use zerokv.Regbuf.Writes.{flat, Sent, write_vectored-Sent}
use zerokv.Commit.{
  Pending, Writer, idle, built, linked, top, waiting, detached, counted, writing, signalling,
  stopped, World, upd, slices, total, sort_by_seq, Step, fetch_seq, link, count, drop, load_running,
  swap_none, swap_last, swap, uncount, fetch_offset, write, signal, next_round, last_round,
}
use zerokv.Commit.Members.{Mem, Lies, Mem_of_sort}
use zerokv.Commit.Batches.{batch, front, Ready, Stored, Safe, turn-Safe, write-Safe}

-- What holds of the old value everywhere, and of the new one, holds after an update.
pub upd-all {ℓ κ} :
    {A : Type ℓ} (P : ℕ → A → Type κ) (f : ℕ → A) (i : ℕ) (v : A)
    → ((j : ℕ) → P j (f j))
    → P i v
    → (j : ℕ) → P j (upd f i v j)
upd-all P f i v h hv j = elim (Bool-cases (i == j)) [
  | inl e ↦ rw e (subst (λ k. P k v) ((==_iff i j).0 e) hv)
  | inr e ↦ rw e (h j)
]

pub idle-built : (p : Pending) → idle ≢ built p
idle-built p e = cc

pub linked-built : (p : Pending) → linked ≢ built p
linked-built p e = cc

-- `built` is injective.
abbrev pub built_of : Pending → Writer → Pending
built_of d idle = d
built_of d (built p) = p
built_of d linked = d

module _ {S : Type 0} {file : File S} {s : World S} (inv : Safe file s) where
  abbrev Submitted : List Pending → ℕ → Writer → Type 0
  Submitted submitted i w = (p : Pending) → w ≡ built p → Mem p submitted

  fetch_seq-Safe :
      (i : ℕ) (new : Pending)
      → Safe file (record s {
        seq = wrapping_add s.seq 1;
        writer = upd s.writer i (built new);
        submitted = new ∷ s.submitted;
      })
  fetch_seq-Safe i new = record {
    writers =
        upd-all (Submitted (new ∷ s.submitted)) s.writer i (built new)
          (λ j p e. inr (inv.writers j p e)) (λ p e. inl (sym (ap (built_of p) e)));
    stacked = λ p h. inr (inv.stacked p h);
    batched = λ p h. inr (inv.batched p h);
    placed = inv.placed;
    ready = inv.ready;
    stored = λ clean q d. let (p, sub, num, lies) = inv.stored clean q d in (p, inr sub, num, lies);
  }

  link-Safe :
      (i : ℕ) (p : Pending)
      → s.writer i ≡ built p
      → Safe file (record s { stack = p ∷ s.stack; writer = upd s.writer i linked })
  link-Safe i p e = record {
    writers =
        upd-all (Submitted s.submitted) s.writer i linked inv.writers
          (λ q bad. absurd (linked-built q bad));
    stacked = λ q h. elim h [
      | inl here ↦ subst (λ x. Mem x s.submitted) (sym here) (inv.writers i p e)
      | inr there ↦ inv.stacked q there
    ];
    batched = inv.batched;
    placed = inv.placed;
    ready = inv.ready;
    stored = inv.stored;
  }

  count-Safe :
      (i : ℕ)
      → Safe file (record s {
        pending_count = wrapping_add s.pending_count 1;
        writer = upd s.writer i idle;
      })
  count-Safe i = record {
    writers =
        upd-all (Submitted s.submitted) s.writer i idle inv.writers
          (λ q bad. absurd (idle-built q bad));
    stacked = inv.stacked;
    batched = inv.batched;
    placed = inv.placed;
    ready = inv.ready;
    stored = inv.stored;
  }

  drop-Safe : Safe file (record s { running = false })
  drop-Safe = record {
    writers = inv.writers;
    stacked = inv.stacked;
    batched = inv.batched;
    placed = inv.placed;
    ready = inv.ready;
    stored = inv.stored;
  }

  signal-Safe :
      (r : Bool) (p : Pending) (b : List Pending)
      → s.batcher ≡ signalling r (p ∷ b)
      → Safe file (record s { done = upd s.done p.seq true; batcher = signalling r b })
  signal-Safe r p b e = record {
    writers = inv.writers;
    stacked = inv.stacked;
    batched = λ q h. inv.batched q (subst (λ x. Mem q (batch x)) (sym e) (inr h));
    placed = tt;
    ready = λ clean q h. ready clean q (inr h);
    stored = λ clean.
        upd-all (λ q (d : Bool). d ≡ true → Stored (file.bytes s.disk) s.submitted s.offset q)
          s.done p.seq true
          (λ q d.
            subst (λ x. Stored (file.bytes s.disk) s.submitted (front x s.offset) q) e
              (inv.stored clean q d))
          (λ _. (
            p,
            inv.batched p (subst (λ x. Mem p (batch x)) (sym e) (inl refl)),
            refl,
            ready clean p (inl refl),
          ));
  }
    where
      ready : s.failed ≡ false → (q : Pending) → Mem q (p ∷ b) → Lies (file.bytes s.disk) s.offset q
      ready clean = subst (λ x. Ready x (file.bytes s.disk) s.offset) e (inv.ready clean)

-- The step relation keeps all of it.
pub Step-Safe :
    {S : Type 0} {file : File S} {s t : World S}
    → IsFile file
    → Safe file s
    → Step file s t
    → Safe file t
Step-Safe law inv (fetch_seq i bytes on e) =
    fetch_seq-Safe inv i (record { seq = _; bytes = bytes })
Step-Safe law inv (link i p e) = link-Safe inv i p e
Step-Safe law inv (count i e) = count-Safe inv i
Step-Safe law inv (drop quiet) = drop-Safe inv
Step-Safe {s = s} law inv (load_running e) =
    turn-Safe inv s.stack (waiting s.running) s.offset s.pending_count (λ p h. h) (λ p h. absurd h)
      (ap (λ b. front b s.offset) (sym e)) tt (λ _. tt)
Step-Safe {s = s} law inv (swap_none e empty) =
    turn-Safe inv s.stack top s.offset s.pending_count (λ p h. h) (λ p h. absurd h)
      (ap (λ b. front b s.offset) (sym e)) tt (λ _. tt)
Step-Safe {s = s} law inv (swap_last e empty) =
    turn-Safe inv s.stack stopped s.offset s.pending_count (λ p h. h) (λ p h. absurd h)
      (ap (λ b. front b s.offset) (sym e)) tt (λ _. tt)
Step-Safe {s = s} law inv (swap r p more e full) =
    turn-Safe inv [] (detached r (p ∷ more)) s.offset s.pending_count (λ q h. absurd h)
      (λ q h. inl (subst (Mem q) (sym full) h)) (ap (λ b. front b s.offset) (sym e)) tt (λ _. tt)
Step-Safe {s = s} law inv (uncount r b e) =
    turn-Safe inv s.stack (counted r (sort_by_seq b)) s.offset _ (λ q h. h)
      (λ q h. inr (subst (λ x. Mem q (batch x)) (sym e) (Mem_of_sort q b h)))
      (ap (λ x. front x s.offset) (sym e)) tt (λ _. tt)
Step-Safe {s = s} law inv (fetch_offset r b e) =
    turn-Safe inv s.stack (writing r b s.offset) (s.offset + total b) s.pending_count (λ q h. h)
      (λ q h. inr (subst (λ x. Mem q (batch x)) (sym e) h)) (ap (λ x. front x s.offset) (sym e))
      refl (λ _. tt)
Step-Safe {file = file} {s = s} law inv (write r b off result disk e ran) =
    let (result', disk', ran', sent) = write_vectored-Sent file s.disk off (slices b) law in
    let same = some-injective _ _ (sym ran' ∙ ran) in
    write-Safe inv r b off result disk e (
      subst
        (λ (x : Outcome × _).
          Sent file s.disk (flat (slices b)) off (length (flat (slices b))) x.0 x.1)
        same sent)
Step-Safe law inv (signal r p b e) = signal-Safe inv r p b e
Step-Safe {s = s} law inv (next_round r e more) =
    turn-Safe inv s.stack top s.offset s.pending_count (λ p h. h) (λ p h. absurd h)
      (ap (λ b. front b s.offset) (sym e)) tt (λ _. tt)
Step-Safe {s = s} law inv (last_round e empty) =
    turn-Safe inv s.stack stopped s.offset s.pending_count (λ p h. h) (λ p h. absurd h)
      (ap (λ b. front b s.offset) (sym e)) tt (λ _. tt)
