-- ===== src/Log.antt =====
-- crates/zerokv/src/mmap_log.rs: the write-ahead log in a page-aligned buffer.
pub mod Records
pub mod Reopen
mod Tests
use zerokv.Prelude.{
  ℕ, ◌+◌, ◌-◌, ◌^◌, min, Bool, true, false, Option, none, some, List, [], ◌∷◌, ◌++◌, length, take,
  drop, get_elem?, replicate, ltb, leb, ◌==◌, ◌||◌, if◌then◌else◌,
}
use zerokv.Words.{align_up}
use zerokv.Memory.{Memory, read_bytes, write_bytes}

abbrev pub page : ℕ
page = 4096

-- `MappedLog`; `mem` is the memory that the buffer lies in, `file` the contents of the file.
pub record MappedLog : Type 0 where
  pub base : ℕ
  pub cap : ℕ
  pub len : ℕ
  pub spans : List (ℕ × ℕ)
  pub mem : Memory
  pub file : List ℕ

-- A zeroed buffer of `cap` bytes with the start of the file's contents.
unfoldable pub loaded : ℕ → Memory → List ℕ → ℕ → MappedLog
loaded base mem existing cap =
    let zeroed = write_bytes mem base (replicate cap 0) in
    let len = min (length existing) cap in
    record {
      base = base;
      cap = cap;
      len = len;
      spans = [];
      mem = write_bytes zeroed base (take len existing);
      file = existing;
    }

-- `base` and `mem` come from the allocator; `existing` is what the file holds, or none if it cannot be
-- opened and read. The result is none where that is an error, and where the size of the buffer makes
-- no layout: one that passes `isize::MAX`, which panics, or one of 0, which must not be allocated.
unfoldable pub open_log : ℕ → Memory → Option (List ℕ) → ℕ → Option MappedLog
unfolding loaded
open_log base mem none cap = none
open_log base mem (some existing) cap =
    let size = align_up cap page in
    if size == 0 || leb (2 ^ 63) size then none else some (loaded base mem existing size)

pub append : MappedLog → List ℕ → Option ℕ × MappedLog
append log bytes =
    if ltb log.cap (log.len + length bytes)
    then (none, log)
    else let dst = log.base + log.len in
      let spans = log.spans ++ (dst, length bytes) ∷ [] in
      (
        some (length spans - 1),
        record log {
          mem = write_bytes log.mem dst bytes;
          spans = spans;
          len = log.len + length bytes;
        },
      )

pub slice_at : Memory → Option (ℕ × ℕ) → Option (List ℕ)
slice_at mem none = none
slice_at mem (some (ptr, len)) = some (read_bytes mem ptr len)

pub record_at : MappedLog → ℕ → Option (List ℕ)
unfolding slice_at
record_at log index = slice_at log.mem (get_elem? log.spans index)

-- Writing `bytes` over the start of the file.
abbrev pub overwrite : List ℕ → List ℕ → List ℕ
overwrite bytes file = bytes ++ drop (length bytes) file

-- The populated prefix of the buffer.
abbrev pub contents : MappedLog → List ℕ
contents log = read_bytes log.mem log.base log.len

-- The argument says how the writes go: all of them, or an error after some number of bytes.
pub flush : MappedLog → Option ℕ → Bool × MappedLog
flush log none = (true, record log { file = overwrite (contents log) log.file })
flush log (some written) =
    (false, record log { file = overwrite (take written (contents log)) log.file })
