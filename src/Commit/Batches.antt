-- ===== src/Commit/Batches.antt =====
-- What holds of the records, the file and the completions at every moment.
use zerokv.Prelude.{
  ℕ, ◌+◌, ◌≤◌, ◌≡◌, ◌≢◌, ◌⊎◌, inl, inr, refl, sym, ap, ap₂, ◌∙◌, subst, Bool, true, false, ◌||◌,
  List, [], length, take, arith, take-length,
}
use zerokv.Memory.{
  Memory, read_bytes, write_bytes, read_bytes-write_bytes, read_bytes-write_bytes_disjoint,
}
use zerokv.Regbuf.{File, Outcome}
use zerokv.Regbuf.Writes.{flat, Sent, IsError}
use zerokv.Commit.{
  Pending, built, Batcher, top, waiting, detached, counted, writing, signalling, stopped, World,
  slices, total, is_error,
}
use zerokv.Commit.Members.{Mem, Lies, slices-Lies, total-flat}

-- The records that the batcher holds.
abbrev pub batch : Batcher → List Pending
batch top = []
batch (waiting r) = []
batch (detached r b) = b
batch (counted r b) = b
batch (writing r b off) = b
batch (signalling r b) = b
batch stopped = []

-- Up to where the file is written, if no write has failed.
abbrev pub front : Batcher → ℕ → ℕ
front top offset = offset
front (waiting r) offset = offset
front (detached r b) offset = offset
front (counted r b) offset = offset
front (writing r b off) offset = off
front (signalling r b) offset = offset
front stopped offset = offset

abbrev pub Placed : Batcher → ℕ → Type 0
Placed top offset = Unit
Placed (waiting r) offset = Unit
Placed (detached r b) offset = Unit
Placed (counted r b) offset = Unit
Placed (writing r b off) offset = off + total b ≡ offset
Placed (signalling r b) offset = Unit
Placed stopped offset = Unit

-- The records that are about to be signalled lie in the file.
abbrev pub Ready : Batcher → Memory → ℕ → Type 0
Ready top mem offset = Unit
Ready (waiting r) mem offset = Unit
Ready (detached r b) mem offset = Unit
Ready (counted r b) mem offset = Unit
Ready (writing r b off) mem offset = Unit
Ready (signalling r b) mem offset = (p : Pending) → Mem p b → Lies mem offset p
Ready stopped mem offset = Unit

-- A record that was submitted under this number lies in the file.
abbrev pub Stored : Memory → List Pending → ℕ → ℕ → Type 0
Stored mem submitted end q = (p : Pending) × Mem p submitted × (p.seq ≡ q) × Lies mem end p

pub record Safe {S : Type 0} (file : File S) (s : World S) : Type 0 where
  pub writers : (i : ℕ) (p : Pending) → s.writer i ≡ built p → Mem p s.submitted
  pub stacked : (p : Pending) → Mem p s.stack → Mem p s.submitted
  pub batched : (p : Pending) → Mem p (batch s.batcher) → Mem p s.submitted
  pub placed : Placed s.batcher s.offset
  pub ready : s.failed ≡ false → Ready s.batcher (file.bytes s.disk) s.offset
  pub stored :
      s.failed ≡ false
      → (q : ℕ) → s.done q ≡ true
      → Stored (file.bytes s.disk) s.submitted (front s.batcher s.offset) q

Lies-later :
    (mem : Memory) (end end' off : ℕ) (bytes : List ℕ) (p : Pending)
    → end ≤ off
    → end ≤ end'
    → Lies mem end p
    → Lies (write_bytes mem off bytes) end' p
Lies-later mem end end' off bytes p le le' h = record {
  place = h.place;
  below = omega (arith, h.below);
  reads =
      read_bytes-write_bytes_disjoint mem off bytes (length p.bytes) h.place
        (inl (omega (arith, h.below)))
      ∙ h.reads;
}

or-false : (a b : Bool) → (a || b) ≡ false → (a ≡ false) × (b ≡ false)
or-false true b h = (h, absurd (true-false h))
  where
    true-false : true ≢ false
    true-false e = cc
or-false false b h = (refl, h)

IsError-is_error : (r : Outcome) → IsError r → is_error r ≡ true
IsError-is_error r (inl e) = ap is_error e
IsError-is_error r (inr e) = ap is_error e

module _ {S : Type 0} {file : File S} {s : World S} (inv : Safe file s) where
  -- The batcher turns to something else, which it takes from the stack or from its batch.
  pub turn-Safe :
      (stack' : List Pending) (b' : Batcher) (offset' count' : ℕ)
      → ((p : Pending) → Mem p stack' → Mem p s.stack)
      → ((p : Pending) → Mem p (batch b') → Mem p s.stack ⊎ Mem p (batch s.batcher))
      → front b' offset' ≡ front s.batcher s.offset
      → Placed b' offset'
      → (s.failed ≡ false → Ready b' (file.bytes s.disk) offset')
      → Safe file
          (record s { stack = stack'; batcher = b'; offset = offset'; pending_count = count' })
  turn-Safe stack' b' offset' count' kept taken same placed ready = record {
    writers = inv.writers;
    stacked = λ p h. inv.stacked p (kept p h);
    batched = λ p h. elim (taken p h) [
      | inl on_stack ↦ inv.stacked p on_stack
      | inr in_batch ↦ inv.batched p in_batch
    ];
    placed = placed;
    ready = ready;
    stored = λ clean q d.
        subst (λ e. Stored (file.bytes s.disk) s.submitted e q) (sym same) (inv.stored clean q d);
  }

  pub write-Safe :
      (r : Bool) (b : List Pending) (off : ℕ) (result : Outcome) (disk : S)
      → s.batcher ≡ writing r b off
      → Sent file s.disk (flat (slices b)) off (length (flat (slices b))) result disk
      → Safe file
          (record s { disk = disk; failed = s.failed || is_error result; batcher = signalling r b })
  write-Safe r b off result disk e sent = record {
    writers = inv.writers;
    stacked = inv.stacked;
    batched = λ p h. inv.batched p (subst (λ x. Mem p (batch x)) (sym e) h);
    placed = tt;
    ready = λ clean p h.
        slices-Lies (file.bytes disk) off s.offset b (omega (arith, ends))
          (whole (or-false s.failed (is_error result) clean).1) p h;
    stored = λ clean q d.
        let (p, sub, num, lies) = inv.stored (or-false s.failed (is_error result) clean).0 q d in
        (
          p,
          sub,
          num,
          subst (λ m. Lies m s.offset p) (sym sent.stored)
              (Lies-later (file.bytes s.disk) off s.offset off (take sent.sent (flat (slices b))) p
                (omega arith) (omega (arith, ends))
                (subst (λ x. Lies (file.bytes s.disk) (front x s.offset) p) e lies)),
        );
  }
    where
      ends : off + total b ≡ s.offset
      ends = subst (λ x. Placed x s.offset) e inv.placed

      whole : is_error result ≡ false → read_bytes (file.bytes disk) off (total b) ≡ flat (slices b)
      whole clean = elim sent.whole [
        | inl h ↦
            ap₂ (λ (m : Memory) n. read_bytes m off n)
              (sent.stored
                ∙ ap (write_bytes (file.bytes s.disk) off)
                    (ap (λ n. take n (flat (slices b))) h.1 ∙ take-length (flat (slices b))))
              (sym (total-flat b))
            ∙ read_bytes-write_bytes (file.bytes s.disk) off (flat (slices b))
        | inr bad ↦ absurd (true-false (sym (IsError-is_error result bad) ∙ clean))
      ]
        where
          true-false : true ≢ false
          true-false x = cc
