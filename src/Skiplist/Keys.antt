-- ===== src/Skiplist/Keys.antt =====
-- crates/zerokv/src/skiplist.rs: keys as nodes hold them, and how a key is compared with a target.
pub mod Order
use zerokv.Prelude.{
  ℕ, ◌-◌, Bool, true, false, List, [], ◌∷◌, ◌++◌, length, take, replicate, leb, ltb, if◌then◌else◌,
}
use zerokv.Index.{Bytes}
use zerokv.Arena.Kv.{slice_eq}

abbrev pub inline_cap : ℕ
inline_cap = 22

pub data KeyRepr : Type 0 where
  inline : (len : ℕ) (buf : Bytes) → KeyRepr
  boxed : Bytes → KeyRepr

-- The bytes of the buffer that the key does not reach stay 0.
unfoldable pub new_key : Bytes → KeyRepr
new_key key =
    if leb (length key) inline_cap
    then KeyRepr.inline (length key) (key ++ replicate (inline_cap - length key) 0)
    else KeyRepr.boxed key

unfoldable pub as_bytes : KeyRepr → Bytes
as_bytes (KeyRepr.inline len buf) = take len buf
as_bytes (KeyRepr.boxed b) = b

pub data BoundKey : Type 0 where
  neg_inf : BoundKey
  fin : KeyRepr → BoundKey
  pos_inf : BoundKey

-- `cmp` of byte slices answers `Less`.
unfoldable pub slice_lt : Bytes → Bytes → Bool
slice_lt [] [] = false
slice_lt [] (y ∷ ys) = true
slice_lt (x ∷ xs) [] = false
slice_lt (x ∷ xs) (y ∷ ys) =
    let rest = slice_lt xs ys in if ltb x y then true else if ltb y x then false else rest

unfoldable pub key_lt : BoundKey → Bytes → Bool
unfolding slice_lt as_bytes
key_lt BoundKey.neg_inf target = true
key_lt BoundKey.pos_inf target = false
key_lt (BoundKey.fin k) target = slice_lt (as_bytes k) target

unfoldable pub key_eq : BoundKey → Bytes → Bool
unfolding slice_eq as_bytes
key_eq BoundKey.neg_inf target = false
key_eq BoundKey.pos_inf target = false
key_eq (BoundKey.fin k) target = slice_eq (as_bytes k) target
