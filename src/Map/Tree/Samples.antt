-- ===== src/Map/Tree/Samples.antt =====
-- A small tree of src/map/tree.c, and what the operations do with it.
use redis_pool.Base.{ℕ, ◌+◌, ◌^◌, ◌≡◌, refl, true, none, some, [], ◌==◌, if◌then◌else◌}
use redis_pool.Map.Tree.Store.{Tree, Run, done, fault, out_of_fuel, black}
use redis_pool.Map.Tree.Store.{
  load, store, left_of, right_of, parent_of, set_root, is_red_color, get_color, set_red_color,
  set_color, set_black_color,
}
use redis_pool.Map.Tree.Fix.{fix_after_insert, insert_loop}
use redis_pool.Map.Tree.Ops.{
  s_ok, tree_remove, tree_remove_and_free, tree_put, free_map_value, get_tree_node, find_loop,
  remove_node, two_sons, unlink, drop_node, free_node, place_loop, put_at, add_node, link,
}

-- A tree with one entry.
abbrev pub one_node : (key value : ℕ) → Tree
one_node key value = record {
  max = 4;
  total = 1;
  valid = true;
  root = 1;
  nodes = λ p.
      if p == 1
      then some
          (record { left = 0; right = 0; parent = 0; color = black; key = key; value = value })
      else none;
  released = [];
}

abbrev tree_of : {A : Type 0} → Run A → Tree
tree_of (done a t) = t
tree_of fault = one_node 0 0
tree_of out_of_fuel = one_node 0 0

-- The tree behind the removal of its entry.
abbrev pub removed : (key value : ℕ) → Tree
removed key value = tree_of (tree_remove 2 key (one_node key value))

-- A tree behind a new entry at the node 2.
abbrev pub put_second : (key value : ℕ) → Tree → Tree
put_second key value t = tree_of (tree_put 2 2 key value t)

-- The tree behind the removal and the release of its value.
abbrev pub freed : (key value : ℕ) → Tree
freed key value = tree_of (tree_remove_and_free 2 key (one_node key value))

pub tree_remove-one :
    tree_remove 2 (7 + 2 ^ 31) (one_node (7 + 2 ^ 31) 50) ≡ done 50 (removed (7 + 2 ^ 31) 50)
unfolding tree_remove get_tree_node find_loop remove_node two_sons unlink drop_node free_node load
    store left_of right_of parent_of set_root
tree_remove-one = refl

pub tree_put-second :
    tree_put 2 2 (9 + 2 ^ 31) 50 (removed (7 + 2 ^ 31) 50)
    ≡ done s_ok (put_second (9 + 2 ^ 31) 50 (removed (7 + 2 ^ 31) 50))
unfolding tree_remove get_tree_node find_loop remove_node two_sons unlink drop_node free_node load
    store left_of right_of parent_of set_root tree_put place_loop put_at add_node link
    fix_after_insert insert_loop is_red_color get_color set_red_color set_color set_black_color
tree_put-second = refl

pub tree_remove_and_free-one :
    tree_remove_and_free 2 (7 + 2 ^ 31) (one_node (7 + 2 ^ 31) 50) ≡ done tt (freed (7 + 2 ^ 31) 50)
unfolding tree_remove_and_free free_map_value tree_remove get_tree_node find_loop remove_node
    two_sons unlink drop_node free_node load store left_of right_of parent_of set_root
tree_remove_and_free-one = refl
