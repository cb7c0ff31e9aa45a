-- ===== src/Arena/Kv/Replay.antt =====
-- What the arena store reads back, whatever was put into it.
use mathlib.Core.List.{append-nil, append_assoc}
use zerokv.Prelude.{ℕ, ◌+◌, ◌<◌, ◌^◌, ◌≡◌, ap, ◌∙◌, some, List, [], ◌∷◌, ◌++◌, arith}
use zerokv.Memory.{Memory}
use zerokv.Arena.{with_capacity}
use zerokv.Arena.Kv.{ArenaKv, new, put, get}
use zerokv.Arena.Kv.Entries.{scan-Entries, first_value}
use zerokv.Arena.Kv.Puts.{IsValid, free, put-Put, admitted, put_all, AreSmall}

put_all-IsValid :
    (ops : List (List ℕ × List ℕ)) (kv : ArenaKv) (kvs : List (List ℕ × List ℕ))
    → AreSmall ops
    → IsValid kv kvs
    → IsValid (put_all kv ops) (kvs ++ admitted (free kv) ops)
unfolding put_all admitted
put_all-IsValid [] kv kvs small h = rw append-nil h
put_all-IsValid ((key, val) ∷ ops) kv kvs small h =
    let step = put-Put kv kvs key val h small.0 small.1 in
    rw (step.taken ops, ← append_assoc)
      (put_all-IsValid ops (put kv key val).1 (kvs ++ step.fresh) small.2 step.valid)

new-empty :
    (base : ℕ) (mem : Memory) (cap : ℕ) (kv : ArenaKv)
    → new base mem cap ≡ some kv
    → (kv.arena.base ≡ base) × (kv.arena.cap ≡ cap) × (kv.arena.head ≡ 0) × (kv.entries ≡ [])
unfolding new with_capacity
new-empty base mem cap kv e = ground arith

-- A new store of `cap` bytes answers a `get` after any sequence of puts with the value of the first
-- put of that key, among the puts that fit: a put is refused exactly when its key, or its value
-- after its key, does not fit into what the puts before it have left.
pub get-put_all :
    (base : ℕ) (mem : Memory) (cap : ℕ) (kv : ArenaKv) (ops : List (List ℕ × List ℕ)) (key : List ℕ)
    → base + cap < 2 ^ 63
    → new base mem cap ≡ some kv
    → AreSmall ops
    → get (put_all kv ops) key ≡ first_value (admitted cap ops) key
unfolding get
get-put_all base mem cap kv ops key space made small =
    let (based, capped, bottom, none_yet) = new-empty base mem cap kv made in
    let start : IsValid kv [] = record {
      place = record { space = omega arith; inside = omega arith };
      holds = rw none_yet tt;
    } in
    let h = put_all-IsValid ops kv [] small start in
    scan-Entries (put_all kv ops).arena (put_all kv ops).entries (admitted (free kv) ops) key
      h.holds
    ∙ ap (λ n. first_value (admitted n ops) key) (omega arith)
