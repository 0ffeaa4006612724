-- ===== src/Map/Tests.antt =====
-- Runs of src/map/tree.c on a tree of three clients, and the theorems applied to it.
use redis_pool.Base.{◌≡◌, refl, inl, true, none, some, [], ◌∷◌, arith, ◌==◌, if◌then◌else◌}
use redis_pool.Map.Tree.Store.{Tree, done, red, black}
use redis_pool.Map.Tree.Ops.{s_ok, tree_put, tree_get, tree_remove}
use redis_pool.Map.Tree.Shape.{Shape, leaf, node, lookup, IsTree}
use redis_pool.Map.Tree.Get.{tree_get-lookup}
use redis_pool.Map.Tree.Put.{IsPut, tree_put-IsPut}
use redis_pool.Map.Tree.PutGet.{tree_get-tree_put}
use redis_pool.Map.Tree.Remove.{subtree_at}
use redis_pool.Map.Tree.Promote.{only_son, left_over}
use redis_pool.Map.Tree.Foreach.{foreach_tree}
use redis_pool.Map.Tree.Foreach.Visit.{in_order, size_of, foreach_tree-in_order}
use redis_pool.Map.Tree.Removed.{IsRemoval, tree_remove-IsRemoval}

abbrev three : Shape
three =
    node 1 20 120 black (node 2 10 110 red leaf leaf)
      (node 3 30 130 red leaf (node 4 40 140 red leaf leaf))

abbrev clients : Tree
clients = record {
  max = 8;
  total = 4;
  valid = true;
  root = 1;
  nodes = λ p.
      if p == 1
      then some (record { left = 2; right = 3; parent = 0; color = black; key = 20; value = 120 })
      else if p == 2
      then some (record { left = 0; right = 0; parent = 0; color = red; key = 10; value = 110 })
      else if p == 3
      then some (record { left = 0; right = 4; parent = 0; color = red; key = 30; value = 130 })
      else if p == 4
      then some (record { left = 0; right = 0; parent = 0; color = red; key = 40; value = 140 })
      else none;
  released = [];
}

clients-IsTree : IsTree clients three
clients-IsTree = record {
  leads = refl;
  held = (
    omega arith,
    refl,
    (omega arith, refl, tt, tt),
    (omega arith, refl, tt, (omega arith, refl, tt, tt)),
  );
  distinct = (
    refl,
    refl,
    λ p h. (ground arith),
    (refl, refl, λ p h. refl, tt, tt),
    (refl, refl, λ p h. (ground arith), tt, (refl, refl, λ p h. refl, tt, tt)),
  );
}

tree_get-lookup_example : tree_get 4 40 clients ≡ done (lookup 40 three) clients
tree_get-lookup_example = tree_get-lookup 4 40 clients three (omega arith) clients-IsTree

tree_put-IsPut_example :
    (tr' : Tree) × (tree_put 4 5 25 125 clients ≡ done s_ok tr') × IsPut 25 125 5 clients three tr'
tree_put-IsPut_example =
    tree_put-IsPut 3 5 25 125 clients three clients-IsTree refl refl (omega arith) (omega arith)

tree_get-tree_put_example :
    (tr' : Tree) × (tree_put 4 5 25 125 clients ≡ done s_ok tr')
    × (tree_get 5 25 tr' ≡ done (if 25 == 25 then 125 else lookup 25 three) tr')
tree_get-tree_put_example =
    tree_get-tree_put 3 5 25 125 25 clients three clients-IsTree refl refl (omega arith)
      (omega arith)

tree_remove-IsRemoval_example :
    (tr' : Tree) × (tree_remove 4 30 clients ≡ done 130 tr')
    × IsRemoval 130 clients (left_over red (only_son leaf (node 4 40 140 red leaf leaf))) tr'
unfolding subtree_at
tree_remove-IsRemoval_example =
    tree_remove-IsRemoval 3 30 clients three 3 30 130 red leaf (node 4 40 140 red leaf leaf)
      clients-IsTree (omega arith) refl (inl refl)

foreach_tree-in_order_example :
    foreach_tree 9 true (some (0 ∷ 0 ∷ 0 ∷ 0 ∷ [])) clients ≡ done (in_order three) clients
unfolding size_of
foreach_tree-in_order_example =
    foreach_tree-in_order 9 (0 ∷ 0 ∷ 0 ∷ 0 ∷ []) clients three clients-IsTree (omega arith)
      (omega arith) (omega arith) (omega arith)
