-- ===== src/Index/Route.antt =====
-- Every key has a shard.
use native.Mathlib.Nat.{mod-lt, one-le-pow}
use zerokv.Prelude.{bit_and, ℕ, ◌-◌, ◌^◌, ◌<◌, ◌≡◌, ap, ◌∙◌, max, length, length-replicate, arith}
use zerokv.Words.Mask.{bit_and_mask, next_power_of_two-IsRounded}
use zerokv.Index.{Bytes, SkipList, ShardedIndex, fnv1a, route, new}

-- The shards are as many as a power of two, and the mask is one less.
pub record IsShaped {S : Type 0} (index : ShardedIndex S) : Type 0 where
  pub log : ℕ
  pub count : length index.shards ≡ 2 ^ log
  pub masked : index.mask ≡ 2 ^ log - 1

pub route-lt :
    {S : Type 0} (index : ShardedIndex S) (key : Bytes)
    → IsShaped index
    → route index.mask key < length index.shards
unfolding route
route-lt index key shape = omega (
  arith,
  ap (bit_and (fnv1a key)) shape.masked,
  bit_and_mask shape.log (fnv1a key),
  mod-lt (fnv1a key) (one-le-pow shape.log 2 (omega arith)),
  shape.count,
)

pub new-IsShaped :
    {S : Type 0} (list : SkipList S) (num_shards hint : ℕ) → IsShaped (new list num_shards hint)
unfolding new
new-IsShaped list num_shards hint =
    let rounded = next_power_of_two-IsRounded (max num_shards 1) (omega arith) in
    record {
      log = rounded.log;
      count = length-replicate _ _ ∙ rounded.power;
      masked = ap (λ k. k - 1) rounded.power;
    }
