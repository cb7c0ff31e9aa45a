-- ===== src/Executor/Reads.antt =====
-- crates/zerokv/src/executor.rs: the aligned buffer, and the future that reads into it.
use zerokv.Prelude.{
  ℕ, suc, ◌+◌, ◌%◌, ◌^◌, ◌≤◌, ◌<◌, ◌≡◌, refl, ap, ◌∙◌, Bool, true, false, Option, none, some, List,
  ◌++◌, length, length-append, length-drop, length-replicate, take, take-length_append, drop,
  replicate, max, arith, leb, if◌then◌else◌, ◌==◌, ◌||◌,
}
use zerokv.Words.{align_up}
use zerokv.Words.Align.{IsAligned, align_up-IsAligned}
use zerokv.Executor.Block.{Polled, block_on}
use zerokv.Executor.Block.Wakes.{rounds-woken, rounds-ready}

abbrev zero_byte : ℕ
zero_byte = 0

abbrev pub align : ℕ
align = 4096

-- The bytes of an `AlignedBuf`. A layout of size 0 must not be allocated, and one that passes
-- `isize::MAX` is refused: none.
unfoldable pub new_buf : ℕ → Option (List ℕ)
new_buf n =
    let size = align_up n align in
    if size == 0 || leb (2 ^ 63) size then none else some (replicate size 0)

pub record DirectIoRead : Type 0 where
  pub buf : List ℕ
  pub source : List ℕ
  pub submitted : Bool

unfoldable pub new_read : List ℕ → ℕ → Option DirectIoRead
new_read source buf_len = elim (new_buf (max buf_len (length source))) [
  | none ↦ none
  | some buf ↦ some (record { buf = buf; source = source; submitted = false })
]

-- The slice of the buffer must be as long as the source.
unfoldable pub copy_in : List ℕ → List ℕ → Option (List ℕ)
copy_in source buf =
    if leb (length source) (length buf) then some (source ++ drop (length source) buf) else none

-- The first poll calls the waker, the second hands the buffer out and takes a fresh one.
unfoldable pub poll_read : DirectIoRead → Option (Polled DirectIoRead (List ℕ))
poll_read r = elim r.submitted [
  | false ↦ some (record { result = none; woke = true; after = record r { submitted = true } })
  | true ↦ elim (copy_in r.source r.buf) [
    | none ↦ none
    | some out ↦ elim (new_buf align) [
      | none ↦ none
      | some fresh ↦
          some (record { result = some out; woke = false; after = record r { buf = fresh } })
    ]
  ]
]

-- A buffer for `n` bytes, of the next multiple of a page.
new_buf-some :
    (n : ℕ)
    → 0 < n
    → n + align ≤ 2 ^ 63
    → IsAligned n align (align_up n align) × (new_buf n ≡ some (replicate (align_up n align) 0))
unfolding new_buf
new_buf-some n pos le =
    let is = align_up-IsAligned n 12 (omega arith) (omega (arith, le)) in
    (
      is,
      rw (usable (align_up n align) (omega (arith, is.above, pos)) (omega (arith, is.near, le)))
          refl,
    )
  where
    usable : (s : ℕ) → 0 < s → s < 2 ^ 63 → (s == 0 || leb (2 ^ 63) s) ≡ false
    usable s h l = ground arith

copy_in-some :
    (source buf : List ℕ)
    → length source ≤ length buf
    → copy_in source buf ≡ some (source ++ drop (length source) buf)
unfolding copy_in
copy_in-some source buf le = rw (fits (length source) (length buf) le) refl
  where
    fits : (a b : ℕ) → a ≤ b → leb a b ≡ true
    fits a b h = ground arith

same_length :
    (xs buf : List ℕ) → length xs ≤ length buf → length (xs ++ drop (length xs) buf) ≡ length buf
same_length xs buf le =
    omega (arith, le, length-append xs (drop (length xs) buf), length-drop (length xs) buf)

-- What a read that succeeds hands out: the source's bytes first, in a buffer of whole pages.
pub record IsRead (source : List ℕ) (buf_len : ℕ) (out : List ℕ) : Type 0 where
  pub bytes : take (length source) out ≡ source
  pub pages : length out % align ≡ 0
  pub holds : max buf_len (length source) ≤ length out

first_poll :
    (source buf : List ℕ)
    → poll_read (record { buf = buf; source = source; submitted = false })
      ≡ some (record {
        result = none;
        woke = true;
        after = record { buf = buf; source = source; submitted = true };
      })
unfolding poll_read
first_poll source buf = refl

second_poll :
    (source buf : List ℕ)
    → length source ≤ length buf
    → (p : Polled DirectIoRead (List ℕ)) × (poll_read
          (record { buf = buf; source = source; submitted = true })
        ≡ some p)
      × (p.result ≡ some (source ++ drop (length source) buf))
unfolding poll_read
second_poll source buf le = (
  record {
    result = some (source ++ drop (length source) buf);
    woke = false;
    after = record { buf = replicate (align_up align align) 0; source = source; submitted = true };
  },
  rw (poll_read, copy_in-some source buf le, (new_buf-some align (omega arith) (omega arith)).1)
      refl,
  refl,
)

-- The two polls of a read.
read_twice :
    (f : ℕ) (wakes : ℕ → Bool) (source buf : List ℕ)
    → length source ≤ length buf
    → block_on
        (suc (suc f))
        poll_read
        wakes
        (record { buf = buf; source = source; submitted = false })
      ≡ some (source ++ drop (length source) buf)
unfolding block_on
read_twice f wakes source buf le =
    let (p, run, done) = second_poll source buf le in
    rounds-woken poll_read wakes (suc f) 0 false _ _ (first_poll source buf) refl refl
    ∙ rounds-ready poll_read wakes f 1 true _ p _ run done

-- A read of at least one byte, or into a buffer of at least one, that is driven by `block_on` returns
-- after two polls, whoever else wakes the thread.
pub block_on-new_read :
    (f : ℕ) (wakes : ℕ → Bool) (source : List ℕ) (buf_len : ℕ)
    → 0 < max buf_len (length source)
    → max buf_len (length source) + align ≤ 2 ^ 63
    → (r : DirectIoRead) × (out : List ℕ) × (new_read source buf_len ≡ some r)
      × (block_on (suc (suc f)) poll_read wakes r ≡ some out)
      × IsRead source buf_len out
unfolding new_read
block_on-new_read f wakes source buf_len pos le =
    let n = max buf_len (length source) in
    let (is, made) = new_buf-some n pos le in
    let size = align_up n align in
    let buf : List ℕ = replicate size 0 in
    let long : length source ≤ length buf =
      omega (arith, length-replicate size zero_byte, is.above) in
    (
      record { buf = buf; source = source; submitted = false },
      source ++ drop (length source) buf,
      rw (new_read, made) refl,
      read_twice f wakes source buf long,
      record {
        bytes = take-length_append source (drop (length source) buf);
        pages =
            ap (λ m. m % align) (same_length source buf long ∙ length-replicate size zero_byte)
            ∙ is.aligned;
        holds =
            omega (arith, is.above, same_length source buf long ∙ length-replicate size zero_byte);
      },
    )
