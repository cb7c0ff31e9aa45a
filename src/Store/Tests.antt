-- ===== src/Store/Tests.antt =====
-- Runs of the store over association lists.
use zerokv.Prelude.{◌≡◌, arith, refl, some, List, [], ◌∷◌}
use zerokv.Log.{MappedLog, loaded}
use zerokv.Log.Reopen.{joined}
use zerokv.Index.{new}
use zerokv.Index.Refines.{Op, put, fetch, erase, count, empty}
use zerokv.Index.Tests.{pairs, pairs-IsMap}
use zerokv.Store.{frame}
use zerokv.Store.Wal.{frames, puts, frames_injective}
use zerokv.Store.Answers.{Done, serve, serve-new}

abbrev log : MappedLog
log = loaded 4096 (λ _. 0) [] 16

abbrev ops : List Op
ops = put (1 ∷ []) (7 ∷ []) ∷ put (2 ∷ []) (8 ∷ []) ∷ erase (2 ∷ []) ∷ fetch (1 ∷ []) ∷ count ∷ []

frame-key : frame (5 ∷ 6 ∷ []) (9 ∷ []) ≡ 2 ∷ 0 ∷ 0 ∷ 0 ∷ 5 ∷ 6 ∷ 9 ∷ []
unfolding frame
frame-key = refl

serve-new_example :
    Done pairs empty
      (some log)
      ops
      (serve pairs (record { index = new pairs 3 100; wal = some log }) ops)
serve-new_example = serve-new pairs 3 100 (some log) ops pairs-IsMap

-- The same puts with other calls among them.
abbrev more_ops : List Op
more_ops = put (1 ∷ []) (7 ∷ []) ∷ count ∷ put (2 ∷ []) (8 ∷ []) ∷ []

frames_injective_example : puts ops ≡ puts more_ops
frames_injective_example =
    frames_injective ops more_ops (omega arith, (omega arith, tt)) (omega arith, (omega arith, tt))
      refl

-- The bytes alone do not determine them: a frame does not say where its value ends.
joined_twice :
    joined (frames (put (1 ∷ []) (7 ∷ []) ∷ put (2 ∷ []) (8 ∷ []) ∷ []))
    ≡ joined (frames (put (1 ∷ []) (7 ∷ 1 ∷ 0 ∷ 0 ∷ 0 ∷ 2 ∷ 8 ∷ []) ∷ []))
unfolding frame
joined_twice = refl
