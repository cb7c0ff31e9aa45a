-- ===== src/Commit/Tests.antt =====
-- A run in which one record is submitted, written and signalled.
use zerokv.Prelude.{refl, true, [], ◌∷◌}
use zerokv.Memory.{Memory}
use zerokv.Regbuf.{
  ok, write_vectored, write_slices, after_slice, write_all_at, write_loop, after_write,
}
use zerokv.Regbuf.Tests.{slow, slow-IsFile}
use zerokv.Commit.{
  Pending, World, Reach, start, later, fetch_seq, link, count, load_running, swap, uncount,
  fetch_offset, write, signal,
}
use zerokv.Commit.Batches.{Stored, front}
use zerokv.Commit.Durable.{done-Stored}

abbrev record_0 : Pending
record_0 = record { seq = 0; bytes = 5 ∷ 6 ∷ [] }

abbrev run : (s : World Memory) × Reach slow (λ _. 0) 100 s
unfolding write_vectored write_slices after_slice write_all_at write_loop after_write
run = (
  _,
  later
      (later
        (later
          (later
            (later
              (later
                (later
                  (later (later start (fetch_seq 0 (5 ∷ 6 ∷ []) refl refl)) (link 0 record_0 refl))
                  (count 0 refl))
                (load_running refl))
              (swap true record_0 [] refl refl))
            (uncount true (record_0 ∷ []) refl))
          (fetch_offset true (record_0 ∷ []) refl))
        (write true (record_0 ∷ []) 100 (ok 2) _ refl refl))
      (signal true record_0 [] refl),
)

done-Stored_example : Stored run.0.disk run.0.submitted (front run.0.batcher run.0.offset) 0
unfolding run
done-Stored_example = done-Stored 0 slow-IsFile run.1 refl refl
