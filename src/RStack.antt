-- ===== src/RStack.antt =====
-- src/rstack.c and src/rstack.h: a stack of pointers in a block of fixed size. `n` holds the slots of
-- the block, and `depth` is one more than the source's `top`, so an empty stack has depth 0. The
-- callers never pass NULL.
pub mod Laws
use redis_pool.Base.{
  ℕ, suc, ◌+◌, ◌-◌, Bool, true, false, ◌||◌, Option, none, some, List, leb, ◌==◌, if◌then◌else◌,
  get_or, set,
}
use redis_pool.Base.Int.{ℤ, pos, negsuc}

pub record RStack : Type 0 where
  pub n : List ℕ
  pub size : ℕ
  pub depth : ℕ

-- The answers of the two mallocs are arguments: whether there is room for the struct, and the slots
-- of the block.
unfoldable pub new_rstack :
    (rsk_ok : Bool) (block : Option (List ℕ)) (per : ℕ) (size : ℤ) → Option RStack
new_rstack rsk_ok block per (negsuc s) = none
new_rstack false block per (pos s) = none
new_rstack true none per (pos s) = none
new_rstack true (some slots) per (pos s) =
    if (s == 0) || (per == 0) then none else some (record { n = slots; size = s; depth = 0 })

unfoldable pub is_empty_rstack : RStack → Bool
is_empty_rstack rsk = rsk.depth == 0

-- The stack and the result.
unfoldable pub push_rstack : RStack → (n : ℕ) → RStack × Bool
push_rstack rsk n =
    if leb rsk.size rsk.depth
    then (rsk, false)
    else (record rsk { n = set rsk.n rsk.depth n; depth = rsk.depth + 1 }, true)

unfoldable pub pop_rstack : RStack → RStack × ℕ
pop_rstack rsk =
    if rsk.depth == 0
    then (rsk, 0)
    else (record rsk { depth = rsk.depth - 1 }, get_or rsk.n (rsk.depth - 1) 0)
