-- ===== src/Commit.antt =====
-- crates/zerokv/src/group_commit.rs: the writers and the batcher, under every interleaving.
pub mod Members
pub mod Batches
pub mod Steps
pub mod Durable
mod Tests
use zerokv.Prelude.{
  ℕ, zero, suc, ◌+◌, ◌-◌, ◌*◌, ◌/◌, ◌%◌, ◌^◌, ◌≡◌, ◌≢◌, ◌⊎◌, ◌<◌, Bool, true, false, ◌||◌, Option,
  none, some, List, [], ◌∷◌, ◌++◌, length, leb, ◌==◌, if◌then◌else◌,
}
use zerokv.Words.{word, wrapping_add, wrapping_sub}
use zerokv.Regbuf.{File, Outcome, ok, os_error, write_zero, write_vectored}

-- `Pending`; a record's number stands for its completion too.
pub record Pending : Type 0 where
  pub seq : ℕ
  pub bytes : List ℕ

-- Where a writer stands in `append`.
pub data Writer : Type 0 where
  idle : Writer
  built : Pending → Writer
  linked : Writer

-- Where the batcher stands in a round of `batcher_loop`; the flag is the `running` that it loaded.
pub data Batcher : Type 0 where
  top : Batcher
  waiting : Bool → Batcher
  detached : Bool → List Pending → Batcher
  counted : Bool → List Pending → Batcher
  writing : Bool → List Pending → ℕ → Batcher
  signalling : Bool → List Pending → Batcher
  stopped : Batcher

-- `stack` is the Treiber stack, the newest record first. The last two fields are records of the
-- past: what the writers have built, and whether a write has returned an error.
pub record World (S : Type 0) : Type 0 where
  pub stack : List Pending
  pub seq : ℕ
  pub offset : ℕ
  pub pending_count : ℕ
  pub running : Bool
  pub writer : ℕ → Writer
  pub batcher : Batcher
  pub disk : S
  pub done : ℕ → Bool
  pub submitted : List Pending
  pub failed : Bool

abbrev pub upd {ℓ} : {A : Type ℓ} → (ℕ → A) → ℕ → A → ℕ → A
upd f i v j = if i == j then v else f j

abbrev pub insert_by_seq : Pending → List Pending → List Pending
insert_by_seq p [] = p ∷ []
insert_by_seq p (q ∷ batch) =
    let rest = insert_by_seq p batch in if leb p.seq q.seq then p ∷ q ∷ batch else q ∷ rest

abbrev pub sort_by_seq : List Pending → List Pending
sort_by_seq [] = []
sort_by_seq (p ∷ batch) = insert_by_seq p (sort_by_seq batch)

abbrev pub slices : List Pending → List (List ℕ)
slices [] = []
slices (p ∷ batch) = p.bytes ∷ slices batch

abbrev pub total : List Pending → ℕ
total [] = 0
total (p ∷ batch) = length p.bytes + total batch

abbrev pub is_error : Outcome → Bool
is_error (ok n) = false
is_error os_error = true
is_error write_zero = true

-- One access of one party to what they share. A compare-exchange that fails changes nothing and is
-- no step. No writer is inside `append` when the handle is dropped, and none enters it then.
pub data Step {S : Type 0} (file : File S) (s : World S) : World S → Type 0 where
  fetch_seq :
      (i : ℕ) (bytes : List ℕ)
      → s.running ≡ true
      → s.writer i ≡ idle
      → Step file s (record s {
        seq = wrapping_add s.seq 1;
        writer = upd s.writer i (built (record { seq = s.seq; bytes = bytes }));
        submitted = record { seq = s.seq; bytes = bytes } ∷ s.submitted;
      })
  link :
      (i : ℕ) (p : Pending)
      → s.writer i ≡ built p
      → Step file s (record s { stack = p ∷ s.stack; writer = upd s.writer i linked })
  count :
      (i : ℕ)
      → s.writer i ≡ linked
      → Step file s (record s {
        pending_count = wrapping_add s.pending_count 1;
        writer = upd s.writer i idle;
      })
  drop : ((i : ℕ) → s.writer i ≡ idle) → Step file s (record s { running = false })
  load_running : s.batcher ≡ top → Step file s (record s { batcher = waiting s.running })
  swap_none : s.batcher ≡ waiting true → s.stack ≡ [] → Step file s (record s { batcher = top })
  swap_last :
      s.batcher ≡ waiting false → s.stack ≡ [] → Step file s (record s { batcher = stopped })
  swap :
      (r : Bool) (p : Pending) (more : List Pending)
      → s.batcher ≡ waiting r
      → s.stack ≡ p ∷ more
      → Step file s (record s { stack = []; batcher = detached r (p ∷ more) })
  uncount :
      (r : Bool) (batch : List Pending)
      → s.batcher ≡ detached r batch
      → Step file s (record s {
        pending_count = wrapping_sub s.pending_count (length batch);
        batcher = counted r (sort_by_seq batch);
      })
  fetch_offset :
      (r : Bool) (batch : List Pending)
      → s.batcher ≡ counted r batch
      → Step file s
          (record s { offset = s.offset + total batch; batcher = writing r batch s.offset })
  write :
      (r : Bool) (batch : List Pending) (off : ℕ) (result : Outcome) (disk : S)
      → s.batcher ≡ writing r batch off
      → write_vectored file s.disk off (slices batch) ≡ some (result, disk)
      → Step file s (record s {
        disk = disk;
        failed = s.failed || is_error result;
        batcher = signalling r batch;
      })
  signal :
      (r : Bool) (p : Pending) (batch : List Pending)
      → s.batcher ≡ signalling r (p ∷ batch)
      → Step file s (record s { done = upd s.done p.seq true; batcher = signalling r batch })
  next_round :
      (r : Bool)
      → s.batcher ≡ signalling r []
      → (r ≡ true) ⊎ (s.stack ≢ [])
      → Step file s (record s { batcher = top })
  last_round :
      s.batcher ≡ signalling false [] → s.stack ≡ [] → Step file s (record s { batcher = stopped })

-- `start_off` is the length of the file when it is opened.
abbrev pub init : {S : Type 0} → S → ℕ → World S
init disk start_off = record {
  stack = [];
  seq = 0;
  offset = start_off;
  pending_count = 0;
  running = true;
  writer = λ _. idle;
  batcher = top;
  disk = disk;
  done = λ _. false;
  submitted = [];
  failed = false;
}

pub data Reach {S : Type 0} (file : File S) (disk : S) (start_off : ℕ) : World S → Type 0 where
  start : Reach file disk start_off (init disk start_off)
  later :
      {s t : World S} → Reach file disk start_off s → Step file s t → Reach file disk start_off t
