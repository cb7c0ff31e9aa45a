-- ===== src/Log/Tests.antt =====
-- Runs of the log on small inputs.
use zerokv.Prelude.{ℕ, ◌-◌, ◌≡◌, refl, none, some, List, [], ◌∷◌, ◌++◌, take, get_elem?, false}
use zerokv.Words.{align_up}
use zerokv.Memory.{read_bytes, write_bytes}
use zerokv.Log.{MappedLog, loaded, open_log, append, slice_at, record_at, contents, flush, page}
use zerokv.Log.Records.{fitting, append_all}
use zerokv.Log.Reopen.{record_at-append_all, contents-reopen, joined}

abbrev records : List (List ℕ)
records = (7 ∷ 8 ∷ []) ∷ (9 ∷ []) ∷ []

-- A log of one page on a file of three bytes.
abbrev opened : MappedLog
opened = loaded 4096 (λ _. 255) (1 ∷ 2 ∷ 3 ∷ []) (align_up 8 page)

-- A log of four bytes on the same file: the first record does not fit, the second does.
abbrev tight : MappedLog
tight = loaded 4096 (λ _. 255) (1 ∷ 2 ∷ 3 ∷ []) 4

append_all-tight : contents (append_all tight records) ≡ 1 ∷ 2 ∷ 3 ∷ 9 ∷ []
unfolding append_all append loaded read_bytes write_bytes
append_all-tight = refl

record_at-tight : record_at (append_all tight records) 0 ≡ some (9 ∷ [])
unfolding record_at append_all append loaded slice_at read_bytes write_bytes
record_at-tight = refl

-- An error after two bytes leaves the file with the rest of what it held.
flush-cut : flush (append tight (9 ∷ [])).1 (some 2) ≡ (false, (append tight (9 ∷ [])).1)
unfolding flush append loaded read_bytes write_bytes
flush-cut = refl

record_at-append_all_example :
    record_at (append_all opened records) 1
    ≡ get_elem? (fitting (opened.cap - opened.len) records) 1
unfolding open_log align_up
record_at-append_all_example =
    record_at-append_all 4096 (λ _. 255) (1 ∷ 2 ∷ 3 ∷ []) 8 records 1 {log = opened} refl

-- The log that the file is opened as again.
abbrev reopened : MappedLog
reopened = loaded 8192 (λ _. 0) (flush (append_all opened records) none).1.file (align_up 8 page)

contents-reopen_example :
    contents reopened
    ≡ take opened.cap (1 ∷ 2 ∷ 3 ∷ []) ++ joined (fitting (opened.cap - opened.len) records)
unfolding open_log loaded align_up
contents-reopen_example =
    contents-reopen 4096 (λ _. 255) (1 ∷ 2 ∷ 3 ∷ []) 8 records 8192 (λ _. 0) 8 {log = opened}
      {log' = reopened} refl refl refl
