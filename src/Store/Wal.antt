-- ===== src/Store/Wal.antt =====
-- What the puts leave in the log.
use mathlib.Core.Option
use zerokv.Prelude.{
  ◌%◌, ◌^◌, ◌<◌, ℕ, length, arith, All, ap, ap₂, sym, ◌∙◌, ◌≡◌, refl, Option, none, some, List, [],
  ◌∷◌, ◌++◌,
}
use zerokv.Log.{MappedLog}
use zerokv.Log.Records.{append_all}
use zerokv.Index.{Bytes}
use zerokv.Index.Refines.{Op, put, fetch, erase, count}
use zerokv.Store.{frame, logged, to_le_bytes}

-- The frames of the puts, in order; the other calls leave none.
abbrev pub frames : List Op → List Bytes
frames [] = []
frames (put key val ∷ ops) = frame key val ∷ frames ops
frames (fetch key ∷ ops) = frames ops
frames (erase key ∷ ops) = frames ops
frames (count ∷ ops) = frames ops

abbrev pub after : Option MappedLog → List Op → Option MappedLog
after wal ops = Option.map (λ log. append_all log (frames ops)) wal

pub after-nil : (wal : Option MappedLog) → wal ≡ after wal []
unfolding append_all
after-nil none = refl
after-nil (some log) = refl

pub after-logged :
    (wal : Option MappedLog) (key val : Bytes) (ops : List Op)
    → after (logged key val wal) ops ≡ after wal (put key val ∷ ops)
unfolding logged append_all
after-logged none key val ops = refl
after-logged (some log) key val ops = refl

-- The keys and values of the puts, in order.
abbrev pub puts : List Op → List (Bytes × Bytes)
puts [] = []
puts (put key val ∷ ops) = (key, val) ∷ puts ops
puts (fetch key ∷ ops) = puts ops
puts (erase key ∷ ops) = puts ops
puts (count ∷ ops) = puts ops

-- Each key is short enough for its length to stand in the four bytes before it.
abbrev pub IsShort : List Op → Type 0
IsShort ops = All (λ (p : Bytes × Bytes). length p.0 < 2 ^ 32) (puts ops)

abbrev framed : List (Bytes × Bytes) → List Bytes
framed [] = []
framed ((key, val) ∷ recs) = frame key val ∷ framed recs

cons_inj : {A : Type 0} {x y : A} {xs ys : List A} → x ∷ xs ≡ y ∷ ys → (x ≡ y) × (xs ≡ ys)
cons_inj e = (cc, cc)

append_split :
    (xs xs' ys ys' : Bytes)
    → length xs ≡ length xs'
    → xs ++ ys ≡ xs' ++ ys'
    → (xs ≡ xs') × (ys ≡ ys')
append_split [] [] ys ys' n e = (refl, e)
append_split [] (x ∷ xs) ys ys' n e = absurd (omega (arith, n))
append_split (x ∷ xs) [] ys ys' n e = absurd (omega (arith, n))
append_split (x ∷ xs) (x' ∷ xs') ys ys' n e =
    let (same, rest) = cons_inj e in
    let (more, last) = append_split xs xs' ys ys' (omega (arith, n)) rest in
    (ap₂ (λ (a : ℕ) (l : Bytes). a ∷ l) same more, last)

to_le_bytes_inj : (n m : ℕ) → n < 2 ^ 32 → m < 2 ^ 32 → to_le_bytes n ≡ to_le_bytes m → n ≡ m
to_le_bytes_inj n m lt lt' e =
    let (b0, e1) = cons_inj e in
    let (b1, e2) = cons_inj e1 in
    let (b2, e3) = cons_inj e2 in let (b3, _) = cons_inj e3 in omega (arith, b0, b1, b2, b3)

-- The frame of a key that is short enough determines the key and the value.
frame_inj :
    (key val key' val' : Bytes)
    → length key < 2 ^ 32
    → length key' < 2 ^ 32
    → frame key val ≡ frame key' val'
    → (key ≡ key') × (val ≡ val')
unfolding frame
frame_inj key val key' val' lt lt' e =
    let (head, rest) =
      append_split (to_le_bytes (length key % 2 ^ 32)) (to_le_bytes (length key' % 2 ^ 32))
        (key ++ val) (key' ++ val') refl e in
    let same =
      to_le_bytes_inj (length key % 2 ^ 32) (length key' % 2 ^ 32) (omega arith) (omega arith)
        head in
    append_split key key' val val' (omega (arith, same)) rest

pairs_inj :
    (recs recs' : List (Bytes × Bytes))
    → All (λ (p : Bytes × Bytes). length p.0 < 2 ^ 32) recs
    → All (λ (p : Bytes × Bytes). length p.0 < 2 ^ 32) recs'
    → framed recs ≡ framed recs'
    → recs ≡ recs'
pairs_inj [] [] h h' e = refl
pairs_inj [] (p ∷ ps) h h' e = cc
pairs_inj (p ∷ ps) [] h h' e = cc
pairs_inj ((key, val) ∷ ps) ((key', val') ∷ ps') h h' e =
    let (first, rest) = cons_inj e in
    let (keys, vals) = frame_inj key val key' val' h.0 h'.0 first in
    ap₂ (λ (p : Bytes × Bytes) (l : List (Bytes × Bytes)). p ∷ l)
      (ap₂ (λ (k v : Bytes). (k, v)) keys vals) (pairs_inj ps ps' h.1 h'.1 rest)

frames-puts : (ops : List Op) → frames ops ≡ framed (puts ops)
frames-puts [] = refl
frames-puts (put key val ∷ ops) = ap (λ l. frame key val ∷ l) (frames-puts ops)
frames-puts (fetch key ∷ ops) = frames-puts ops
frames-puts (erase key ∷ ops) = frames-puts ops
frames-puts (count ∷ ops) = frames-puts ops

-- Where every key that is put is shorter than 2^32 bytes, the frames that a sequence of calls leaves,
-- as the records that they are, determine the puts: the keys and the values, in order.
pub frames_injective :
    (ops ops' : List Op)
    → IsShort ops
    → IsShort ops'
    → frames ops ≡ frames ops'
    → puts ops ≡ puts ops'
frames_injective ops ops' short short' e =
    pairs_inj (puts ops) (puts ops') short short' (sym (frames-puts ops) ∙ e ∙ frames-puts ops')
