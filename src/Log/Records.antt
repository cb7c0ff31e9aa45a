-- ===== src/Log/Records.antt =====
-- What the records of the log read back.
use zerokv.Prelude.{
  ℕ, zero, suc, ◌+◌, ◌-◌, ◌≤◌, ◌<◌, ◌≡◌, inl, refl, ap, ap₂, ◌∙◌, false, none, some, List, [], ◌∷◌,
  ◌++◌, length, get_elem?, arith, if◌then◌else◌, ltb, lt→ltb,
}
use zerokv.Memory.{
  Memory, read_bytes, write_bytes, read_bytes-write_bytes, read_bytes-write_bytes_disjoint,
  read_bytes-append,
}
use zerokv.Log.{MappedLog, append, slice_at, contents}

-- The appends that fit into `room` bytes, each after those before it.
unfoldable pub fitting : ℕ → List (List ℕ) → List (List ℕ)
fitting room [] = []
fitting room (bytes ∷ more) =
    let refused = fitting room more in
    let taken = bytes ∷ fitting (room - length bytes) more in
    if ltb room (length bytes) then refused else taken

unfoldable pub append_all : MappedLog → List (List ℕ) → MappedLog
append_all log [] = log
append_all log (bytes ∷ more) = append_all (append log bytes).1 more

-- The spans hold these records, within the first `len` bytes.
abbrev pub Spans : Memory → ℕ → List (ℕ × ℕ) → List (List ℕ) → Type 0
Spans mem end [] [] = Unit
Spans mem end [] (_ ∷ _) = ⊥
Spans mem end (_ ∷ _) [] = ⊥
Spans mem end ((p, n) ∷ spans) (r ∷ rs) =
    (p + n ≤ end) × (read_bytes mem p n ≡ r) × Spans mem end spans rs

Spans-write :
    (mem : Memory) (end more : ℕ) (bytes : List ℕ) (spans : List (ℕ × ℕ)) (rs : List (List ℕ))
    → Spans mem end spans rs
    → Spans (write_bytes mem end bytes) (end + more) spans rs
Spans-write mem end more bytes [] [] h = tt
Spans-write mem end more bytes [] (r ∷ rs) h = h
Spans-write mem end more bytes (s ∷ spans) [] h = h
Spans-write mem end more bytes ((p, n) ∷ spans) (r ∷ rs) (within, reads, rest) = (
  omega arith,
  read_bytes-write_bytes_disjoint mem end bytes n p (inl within) ∙ reads,
  Spans-write mem end more bytes spans rs rest,
)

Spans-append :
    (mem : Memory) (end p n : ℕ) (r : List ℕ) (spans : List (ℕ × ℕ)) (rs : List (List ℕ))
    → Spans mem end spans rs
    → p + n ≤ end
    → read_bytes mem p n ≡ r
    → Spans mem end (spans ++ (p, n) ∷ []) (rs ++ r ∷ [])
Spans-append mem end p n r [] [] h within reads = (within, reads, tt)
Spans-append mem end p n r [] (x ∷ rs) h within reads = absurd h
Spans-append mem end p n r (s ∷ spans) [] h within reads = absurd h
Spans-append mem end p n r ((q, m) ∷ spans) (x ∷ rs) h within reads =
    (h.0, h.1, Spans-append mem end p n r spans rs h.2 within reads)

pub slice_at-Spans :
    (mem : Memory) (end : ℕ) (spans : List (ℕ × ℕ)) (rs : List (List ℕ)) (i : ℕ)
    → Spans mem end spans rs
    → slice_at mem (get_elem? spans i) ≡ get_elem? rs i
unfolding slice_at
slice_at-Spans mem end [] [] i h = refl
slice_at-Spans mem end [] (r ∷ rs) i h = absurd h
slice_at-Spans mem end (s ∷ spans) [] i h = absurd h
slice_at-Spans mem end ((p, n) ∷ spans) (r ∷ rs) zero h = ap some h.1
slice_at-Spans mem end ((p, n) ∷ spans) (r ∷ rs) (suc i) h = slice_at-Spans mem end spans rs i h.2

-- A log whose spans hold `rs` and whose contents are `start` and then the bytes of `rs`.
pub record IsValid (log : MappedLog) (rs : List (List ℕ)) (held : List ℕ) : Type 0 where
  pub inside : log.len ≤ log.cap
  pub spanned : Spans log.mem (log.base + log.len) log.spans rs
  pub filled : contents log ≡ held

-- What one append does on its two ways.
pub append-full :
    (log : MappedLog) (bytes : List ℕ)
    → log.cap < log.len + length bytes
    → append log bytes ≡ (none, log)
unfolding append
append-full log bytes full = rw (lt→ltb log.cap (log.len + length bytes) full)

pub not_ltb : (a b : ℕ) → b ≤ a → ltb a b ≡ false
not_ltb a b h = ground arith

module _ (log : MappedLog) (rs : List (List ℕ)) (held bytes : List ℕ) (h : IsValid log rs held)
    (room : log.len + length bytes ≤ log.cap) where
  pub append-IsValid : IsValid (append log bytes).1 (rs ++ bytes ∷ []) (held ++ bytes)
  unfolding append
  append-IsValid = rw (not_ltb log.cap (log.len + length bytes) room) (record {
    inside = room;
    spanned =
        Spans-append _ _ (log.base + log.len) (length bytes) bytes log.spans rs
          (rw shift
            (Spans-write log.mem (log.base + log.len) (length bytes) bytes log.spans rs h.spanned))
          (omega arith) (read_bytes-write_bytes log.mem (log.base + log.len) bytes);
    filled =
        read_bytes-append _ log.base log.len (length bytes)
        ∙ ap₂ (λ (x y : List ℕ). x ++ y)
            (read_bytes-write_bytes_disjoint log.mem (log.base + log.len) bytes log.len log.base
                (inl (omega arith))
              ∙ h.filled)
            (read_bytes-write_bytes log.mem (log.base + log.len) bytes);
  })
    where
      shift : log.base + (log.len + length bytes) ≡ log.base + log.len + length bytes
      shift = omega arith

  pub append_state :
      ((append log bytes).1.len ≡ log.len + length bytes)
      × ((append log bytes).1.cap ≡ log.cap)
      × ((append log bytes).1.file ≡ log.file)
  unfolding append
  append_state = rw (not_ltb log.cap (log.len + length bytes) room) (refl, refl, refl)
