-- ===== src/Log/Reopen.antt =====
-- The log from `open` through any appends and a `flush` to the next `open`.
use mathlib.Core.List.{append-nil, append_assoc}
use native.Mathlib.Decide.{dec_lt, dec_le}
use zerokv.Prelude.{
  Bool, true, false, none, if◌then◌else◌, ℕ, zero, suc, ◌+◌, ◌-◌, ◌≤◌, min, ◌≡◌, ◌⊎◌, inl, inr,
  refl, sym, ap, ◌∙◌, none, some, List, [], ◌∷◌, ◌++◌, length, length-take, take, drop, get_elem?,
  arith, lt→ltb, take-length_append,
}
use zerokv.Words.{align_up}
use zerokv.Memory.{Memory, read_bytes, write_bytes, read_bytes-write_bytes, length-read_bytes}
use mathlib.Core.Option.{some-injective}
use mathlib.Core.Path.{subst, subst₂}
use zerokv.Log.{MappedLog, loaded, open_log, append, record_at, flush, contents, page}
use zerokv.Log.Records.{
  IsValid, fitting, append_all, append-full, append-IsValid, append_state, slice_at-Spans, not_ltb,
}

abbrev pub joined : List (List ℕ) → List ℕ
joined [] = []
joined (r ∷ rs) = r ++ joined rs

take_all : (n : ℕ) (xs : List ℕ) → length xs ≤ n → take n xs ≡ xs
take_all zero [] h = refl
take_all (suc n) [] h = refl
take_all zero (x ∷ xs) h = absurd (omega arith)
take_all (suc n) (x ∷ xs) h = ap (λ l. x ∷ l) (take_all n xs (omega arith))

drop_all : (n : ℕ) (xs : List ℕ) → length xs ≤ n → drop n xs ≡ []
drop_all zero [] h = refl
drop_all (suc n) [] h = refl
drop_all zero (x ∷ xs) h = absurd (omega arith)
drop_all (suc n) (x ∷ xs) h = drop_all n xs (omega arith)

take-min : (n : ℕ) (xs : List ℕ) → take (min (length xs) n) xs ≡ take n xs
take-min n xs = elim (dec_le (length xs) n) [
  | yes le ↦
      ap (λ m. take m xs) (omega arith)
      ∙ take_all (length xs) xs (omega arith)
      ∙ sym (take_all n xs le)
  | no gt ↦ ap (λ m. take m xs) (omega arith)
]

-- What `open` returns for a file that it can read.
record Opened (existing : List ℕ) (log : MappedLog) : Type 0 where
  valid : IsValid log [] (take log.cap existing)
  kept : log.file ≡ existing
  covered : (length existing ≤ log.len) ⊎ (log.len ≡ log.cap)

read_back :
    (mem : Memory) (p : ℕ) (bytes : List ℕ) (n : ℕ)
    → length bytes ≡ n
    → read_bytes (write_bytes mem p bytes) p n ≡ bytes
read_back mem p bytes n e = rw (← e) (read_bytes-write_bytes mem p bytes)

loaded-Opened :
    (base : ℕ) (mem : Memory) (existing : List ℕ) (size : ℕ)
    → Opened existing (loaded base mem existing size)
unfolding loaded
loaded-Opened base mem existing size = record {
  valid = record {
    inside = omega arith;
    spanned = tt;
    filled =
        read_back _ base (take (min (length existing) size) existing) _
          (length-take (min (length existing) size) existing ∙ omega arith)
        ∙ take-min size existing;
  };
  kept = refl;
  covered = elim (dec_le (length existing) size) [
    | yes le ↦ inl (omega arith)
    | no gt ↦ inr (omega arith)
  ];
}

guarded_some :
    (refused : Bool) (log log' : MappedLog)
    → (if refused then none else some log) ≡ some log'
    → log ≡ log'
guarded_some true log log' e = cc
guarded_some false log log' e = some-injective _ _ e

open_log-Opened :
    (base : ℕ) (mem : Memory) (existing : List ℕ) (size : ℕ) {log : MappedLog}
    → open_log base mem (some existing) size ≡ some log
    → Opened existing log
unfolding open_log
open_log-Opened base mem existing size e =
    subst (Opened existing) (guarded_some _ _ _ e)
      (loaded-Opened base mem existing (align_up size page))

-- After the appends `fresh`: the records, the contents, and what the appends leave alone.
record Appended (log : MappedLog) (rs : List (List ℕ)) (held : List ℕ) (fresh : List (List ℕ))
    (log' : MappedLog) : Type 0 where
  valid : IsValid log' (rs ++ fresh) (held ++ joined fresh)
  capped : log'.cap ≡ log.cap
  filed : log'.file ≡ log.file
  longer : log.len ≤ log'.len

Appended-cons :
    (log log' log'' : MappedLog) (rs fresh : List (List ℕ)) (held bytes : List ℕ)
    → (log'.cap ≡ log.cap) × (log'.file ≡ log.file) × (log.len ≤ log'.len)
    → Appended log' (rs ++ bytes ∷ []) (held ++ bytes) fresh log''
    → Appended log rs held (bytes ∷ fresh) log''
Appended-cons log log' log'' rs fresh held bytes (capped, filed, longer) next = record {
  valid = rw (append_assoc, append_assoc) at next.valid;
  capped = next.capped ∙ capped;
  filed = next.filed ∙ filed;
  longer = omega (arith, next.longer);
}

append_all-Appended :
    (ops : List (List ℕ)) (log : MappedLog) (rs : List (List ℕ)) (held : List ℕ)
    → IsValid log rs held
    → Appended log rs held (fitting (log.cap - log.len) ops) (append_all log ops)
unfolding append_all fitting
append_all-Appended [] log rs held h = record {
  valid = subst₂ (IsValid log) (sym (append-nil rs)) (sym (append-nil held)) h;
  capped = refl;
  filed = refl;
  longer = omega arith;
}
append_all-Appended (bytes ∷ ops) log rs held h = elim (dec_lt log.cap (log.len + length bytes)) [
  | yes full ↦
      rw
        (
          append-full log bytes full,
          lt→ltb (log.cap - log.len) (length bytes) (omega (arith, h.inside)),
        )
        (append_all-Appended ops log rs held h)
  | no room ↦
      let fits : log.len + length bytes ≤ log.cap = omega arith in
      let (len, size, file) = append_state log rs held bytes h fits in
      let next =
        append_all-Appended ops (append log bytes).1 (rs ++ bytes ∷ []) (held ++ bytes)
          (append-IsValid log rs held bytes h fits) in
      let left : (append log bytes).1.cap - (append log bytes).1.len
          ≡ log.cap - log.len - length bytes =
        omega arith in
      rw (not_ltb (log.cap - log.len) (length bytes) (omega arith)) (
        Appended-cons log (append log bytes).1 (append_all (append log bytes).1 ops) rs _ held bytes
          (size, file, omega arith)
          (subst
            (λ n.
              Appended (append log bytes).1 (rs ++ bytes ∷ []) (held ++ bytes) (fitting n ops)
                (append_all (append log bytes).1 ops))
            left next))
]

-- Whatever a log was opened on, after any appends it returns under index `i` the `i`-th of the
-- appends that fit, each into the room that the file's contents and those before it left, and
-- nothing under any other index.
pub record_at-append_all :
    (base : ℕ) (mem : Memory) (existing : List ℕ) (size : ℕ) (ops : List (List ℕ)) (i : ℕ)
    {log : MappedLog}
    → open_log base mem (some existing) size ≡ some log
    → record_at (append_all log ops) i ≡ get_elem? (fitting (log.cap - log.len) ops) i
unfolding record_at
record_at-append_all base mem existing size ops i {log} e =
    let opened = open_log-Opened base mem existing size e in
    let after = append_all-Appended ops log [] (take log.cap existing) opened.valid in
    slice_at-Spans _ _ (append_all log ops).spans (fitting (log.cap - log.len) ops) i
      after.valid.spanned

-- What a complete flush leaves in the file starts with the contents, up to the capacity.
flushed :
    (log : MappedLog) (rs : List (List ℕ)) (held : List ℕ)
    → IsValid log rs held
    → (length log.file ≤ log.len) ⊎ (log.len ≡ log.cap)
    → take log.cap (flush log none).1.file ≡ held
unfolding flush
flushed log rs held h (inl short) =
    ap (λ (l : List ℕ). take log.cap (contents log ++ l))
      (drop_all (length (contents log)) log.file (omega (arith, sized)))
    ∙ ap (take log.cap) (append-nil (contents log))
    ∙ take_all log.cap (contents log) (omega (arith, sized, h.inside))
    ∙ h.filled
  where
    sized : length (contents log) ≡ log.len
    sized = length-read_bytes log.mem log.base log.len
flushed log rs held h (inr full) =
    ap (λ n. take n (flush log none).1.file) (sym full ∙ sym sized)
    ∙ take-length_append (contents log) (drop (length (contents log)) log.file)
    ∙ h.filled
  where
    sized : length (contents log) ≡ log.len
    sized = length-read_bytes log.mem log.base log.len

covers :
    (existing held : List ℕ) (fresh : List (List ℕ)) (log log' : MappedLog)
    → Opened existing log
    → Appended log [] held fresh log'
    → (length log'.file ≤ log'.len) ⊎ (log'.len ≡ log'.cap)
covers existing held fresh log log' opened after = elim opened.covered [
  | inl short ↦ inl (rw (after.filed, opened.kept) (omega (arith, after.longer)))
  | inr full ↦ inr (omega (arith, after.longer, after.capped, after.valid.inside))
]

-- A log that is opened on a file, appended to, flushed with every write going through, and opened
-- again with the same capacity holds the start of the file, up to the capacity, and then the bytes
-- of the appends that fitted.
pub contents-reopen :
    (base : ℕ) (mem : Memory) (existing : List ℕ) (size : ℕ) (ops : List (List ℕ)) (base' : ℕ)
    (mem' : Memory) (size' : ℕ) {log log' : MappedLog}
    → open_log base mem (some existing) size ≡ some log
    → open_log base' mem' (some (flush (append_all log ops) none).1.file) size' ≡ some log'
    → log'.cap ≡ log.cap
    → contents log' ≡ take log.cap existing ++ joined (fitting (log.cap - log.len) ops)
contents-reopen base mem existing size ops base' mem' size' {log} {log'} e e' same =
    let opened = open_log-Opened base mem existing size e in
    let after = append_all-Appended ops log [] (take log.cap existing) opened.valid in
    let again = open_log-Opened base' mem' (flush (append_all log ops) none).1.file size' e' in
    again.valid.filled
    ∙ ap (λ n. take n (flush (append_all log ops) none).1.file) (same ∙ sym after.capped)
    ∙ flushed (append_all log ops) _ _ after.valid (covers existing _ _ log _ opened after)
