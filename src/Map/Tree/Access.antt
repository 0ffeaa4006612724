-- ===== src/Map/Tree/Access.antt =====
-- What the accessors of src/map/tree.c give at a node that is in memory.
use redis_pool.Base.{ℕ, ◌<◌, ◌≡◌, not, some, arith}
use redis_pool.Map.Tree.Store.{
  TreeNode, Tree, done, load, store, update, set_parent, left_of, right_of, parent_of, get_color,
  is_black_color,
}

module _ (p : ℕ) (tr : Tree) (n : TreeNode) (pos : 0 < p) (at : tr.nodes p ≡ some n) where
  pub load-at : load p tr ≡ done n tr
  unfolding load
  load-at = ground arith

  pub left_of-at : left_of p tr ≡ done n.left tr
  unfolding left_of load
  left_of-at = ground arith

  pub right_of-at : right_of p tr ≡ done n.right tr
  unfolding right_of load
  right_of-at = ground arith

  pub parent_of-at : parent_of p tr ≡ done n.parent tr
  unfolding parent_of load
  parent_of-at = ground arith

  pub is_black_color-at : is_black_color p tr ≡ done (not n.color) tr
  unfolding is_black_color get_color load
  is_black_color-at = ground arith

  pub set_parent-at :
      (q : ℕ)
      → set_parent p q tr
        ≡ done tt (record tr { nodes = update tr.nodes p (some (record n { parent = q })) })
  unfolding set_parent load store
  set_parent-at q = ground arith
