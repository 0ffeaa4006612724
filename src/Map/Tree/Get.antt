-- ===== src/Map/Tree/Get.antt =====
-- treeGet and getTreeNode of src/map/tree.c.
use redis_pool.Base.{ℕ, zero, suc, ◌<◌, ◌≡◌, refl, ap, ◌∙◌, arith}
use redis_pool.Map.Tree.Store.{Tree, done, and_then, load}
use redis_pool.Map.Tree.Ops.{find_loop, get_tree_node, value_of, tree_get}
use redis_pool.Map.Tree.Shape.{Shape, leaf, node, addr_of, Holds, IsTree, height, lookup}

value_of-find_loop :
    (fuel key : ℕ) (tr : Tree) (t : Shape)
    → height t < fuel
    → Holds tr.nodes t
    → and_then (find_loop fuel key (addr_of t) tr) value_of ≡ done (lookup key t) tr
unfolding find_loop value_of lookup load
value_of-find_loop zero key tr t h held = elim h [ ]
value_of-find_loop (suc fuel) key tr leaf h held = refl
value_of-find_loop (suc fuel) key tr (node a k v c l r) h held =
    ground (arith, value_of-find_loop fuel key tr l, value_of-find_loop fuel key tr r)

-- treeGet on a tree that the memory holds gives the value that a search in its shape finds, NULL if
-- there is none, and changes nothing; fuel above the height is enough.
pub tree_get-lookup :
    (fuel key : ℕ) (tr : Tree) (t : Shape)
    → height t < fuel
    → IsTree tr t
    → tree_get fuel key tr ≡ done (lookup key t) tr
unfolding tree_get get_tree_node
tree_get-lookup fuel key tr t h is =
    ap (λ p. and_then (find_loop fuel key p tr) value_of) is.leads
    ∙ value_of-find_loop fuel key tr t h is.held
