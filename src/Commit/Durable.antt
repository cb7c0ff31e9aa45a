-- ===== src/Commit/Durable.antt =====
-- What a completion promises.
use zerokv.Prelude.{ℕ, ◌≡◌, ◌≢◌, true, false}
use zerokv.Regbuf.{File, IsFile}
use zerokv.Commit.{World, init, Reach, start, later}
use zerokv.Commit.Batches.{front, Safe, Stored}
use zerokv.Commit.Steps.{Step-Safe, idle-built}

init-Safe :
    {S : Type 0} (file : File S) (disk : S) (start_off : ℕ) → Safe file (init disk start_off)
init-Safe file disk start_off = record {
  writers = λ i p e. absurd (idle-built p e);
  stacked = λ p h. absurd h;
  batched = λ p h. absurd h;
  placed = tt;
  ready = λ _. tt;
  stored = λ _ q e. absurd (false-true e);
}
  where
    false-true : false ≢ true
    false-true e = cc

Reach-Safe :
    {S : Type 0} {file : File S} {disk : S} {start_off : ℕ} {s : World S}
    → IsFile file
    → Reach file disk start_off s
    → Safe file s
Reach-Safe {file = file} {disk = disk} {start_off = start_off} law start =
    init-Safe file disk start_off
Reach-Safe law (later r step) = Step-Safe law (Reach-Safe law r) step

-- Under every interleaving of writers and batcher, as long as no write has returned an error: a
-- completion that is signalled belongs to a record that a writer has submitted, and the bytes of the
-- record stand in the file, below what is written next.
pub done-Stored :
    {S : Type 0} {file : File S} {disk : S} {start_off : ℕ} {s : World S} (q : ℕ)
    → IsFile file
    → Reach file disk start_off s
    → s.failed ≡ false
    → s.done q ≡ true
    → Stored (file.bytes s.disk) s.submitted (front s.batcher s.offset) q
done-Stored q law r clean signalled = (Reach-Safe law r).stored clean q signalled
