-- ===== src/Skiplist/Ops/Starts.antt =====
-- A new map.
use zerokv.Prelude.{
  ℕ, zero, suc, ◌-◌, ◌<◌, ◌≡◌, ◌≢◌, refl, ap, ◌∙◌, [], min, max, arith, ◌⊎◌, inl, inr,
}
use zerokv.Skiplist.Keys.{BoundKey}
use zerokv.Skiplist.Heap.{max_height, sentinel, Heap, Run, ◌>>=◌, alloc, put}
use zerokv.Skiplist.Search.{SkipList}
use zerokv.Skiplist.Valid.{IsValid}
use zerokv.Skiplist.Ops.{nowhere, wire, point_at, with_max_level, with_capacity_hint}
use zerokv.Skiplist.Ops.Inserts.Fresh.{point_at_lem}

wire-point_at :
    (n : ℕ) (h : Heap) (head tail : ℕ) → wire n h head tail ≡ point_at n h head (λ _. tail)
unfolding wire point_at
wire-point_at zero h head tail = refl
wire-point_at (suc n) h head tail = rw (wire-point_at n h head tail) refl

differ : (a b : ℕ) → (a < b) ⊎ (b < a) → a ≢ b
differ a b h e = ground arith

-- The head and the tail, before they are wired.
abbrev ends : Heap
unfolding alloc put
ends = (alloc (alloc nowhere (sentinel BoundKey.neg_inf)).1 (sentinel BoundKey.pos_inf)).1

-- The map of a list whose top level is below the ceiling is made, and is empty.
pub with_max_level-IsValid :
    (m : ℕ) → m < max_height → (s : SkipList) × (with_max_level m ≡ Run.ok s) × IsValid s []
unfolding with_max_level alloc put
with_max_level-IsValid m le =
    let (h, run, is) =
      point_at_lem max_height ends 1 (λ _. 2) (λ l k. (_, refl, omega (arith, k))) in
    (
      record { head = 1; max_level = m; len = 0; heap = h; retired = [] },
      ap
          (λ r.
            r >>= λ w. Run.ok (record { head = 1; max_level = m; len = 0; heap = w; retired = [] }))
          (wire-point_at max_height ends 1 2 ∙ run),
      record {
        tail = 2;
        layout = record {
          head_node = ap (λ n. n 1) is.node;
          tail_node = ap (λ n. n 2) is.node;
          nodes = tt;
          tops = tt;
          low = le;
          distinct = (
            (differ 1 2 (inl (omega arith)), (differ 1 0 (inr (omega arith)), tt)),
            ((differ 2 0 (inr (omega arith)), tt), (tt, tt)),
          );
        };
        fresh = (omega (arith, is.next), (omega (arith, is.next), (omega (arith, is.next), tt)));
        sorted = tt;
        linked = λ l k. (
          is.pointed l (omega (arith, k, le)),
          (is.other 2 l (differ 2 1 (inr (omega arith))), tt),
        );
        len = refl;
      },
    )

-- Whatever the logarithm comes to, the levels are at least one and at most the ceiling.
pub with_capacity_hint-IsValid :
    (ceil_log4 : ℕ → ℕ) (items : ℕ)
    → (s : SkipList) × (with_capacity_hint ceil_log4 items ≡ Run.ok s) × IsValid s []
unfolding with_capacity_hint
with_capacity_hint-IsValid ceil_log4 items =
    with_max_level-IsValid (min (max (ceil_log4 (max items 2)) 1) max_height - 1) (omega arith)
