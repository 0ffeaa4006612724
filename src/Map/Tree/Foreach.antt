-- ===== src/Map/Tree/Foreach.antt =====
-- The macros FOREACH_TREE and END_FOREACH_TREE of src/map/tree.h, which visit the nodes with the
-- stack of src/rstack.c. The list of the keys and values that the body is given, in their order,
-- stands for the body; the body changes no node.
pub mod Visit
use redis_pool.Base.{
  ℕ, zero, suc, ◌%◌, ◌^◌, Bool, not, ◌&&◌, Option, none, some, List, [], ◌∷◌, ◌-◌, ltb, ◌==◌,
  if◌then◌else◌,
}
use redis_pool.Base.Int.{ℤ, pos, negsuc}
use redis_pool.RStack.{RStack, new_rstack, is_empty_rstack, push_rstack, pop_rstack}
use redis_pool.Map.Tree.Store.{Tree, M, out_of_fuel, pure, ◌>>=◌, load, left_of, right_of, get_root}

-- (int32_t)total
abbrev pub to_int32 : ℕ → ℤ
to_int32 total =
    let bits = total % 2 ^ 32 in if ltb bits (2 ^ 31) then pos bits else negsuc (2 ^ 32 - 1 - bits)

unfoldable pub foreach_loop : (fuel n : ℕ) → RStack → M (List (ℕ × ℕ))
foreach_loop zero n rsk = λ _. out_of_fuel
foreach_loop (suc fuel) n rsk =
    if (n == 0) && is_empty_rstack rsk
    then pure []
    else if not (n == 0)
    then (do next ← left_of n; foreach_loop fuel next (push_rstack rsk n).0)
    else (do
      let p = (pop_rstack rsk).1
      visited ← load p
      next ← right_of p
      rest ← foreach_loop fuel next (pop_rstack rsk).0
      pure ((visited.key, visited.value) ∷ rest))

abbrev foreach_from : (fuel root : ℕ) → Option RStack → M (List (ℕ × ℕ))
foreach_from fuel root none = pure []
foreach_from fuel root (some rsk) = foreach_loop fuel root rsk

-- The two answers of malloc are those of newRStack. sizeof(treeNode*) is 8.
unfoldable pub foreach_tree :
    (fuel : ℕ) (rsk_ok : Bool) (block : Option (List ℕ)) → M (List (ℕ × ℕ))
foreach_tree fuel rsk_ok block t =
    if t.root == 0
    then pure [] t
    else foreach_from fuel t.root (new_rstack rsk_ok block 8 (to_int32 t.total)) t
