-- ===== src/Map/Tree/Promote.antt =====
-- The steps of treeRemove of src/map/tree.c at a node with at most one son.
use redis_pool.Base.{
  ℕ, ◌+◌, ◌-◌, ◌%◌, ◌^◌, ◌<◌, ◌≡◌, ◌⊎◌, refl, Bool, true, false, not, ◌&&◌, Option, none, some,
  arith, ◌==◌, if◌then◌else◌,
}
use redis_pool.Map.Tree.Store.{TreeNode, Tree, done, store, update, set_root, parent_of}
use redis_pool.Map.Tree.Ops.{two_sons, unlink, drop_node, free_node, remove_node}
use redis_pool.Map.Tree.Shape.{
  Shape, leaf, node, addr_of, cell, Holds, Holds-update, Distinct, blacken,
}
use redis_pool.Map.Tree.Grow.{Holds-blacken}
use redis_pool.Map.Tree.Access.{load-at, left_of-at, right_of-at}
use redis_pool.Map.Tree.Remove.{promoted}

-- The son that a node with at most one has.
abbrev pub only_son : Shape → Shape → Shape
only_son leaf r = r
only_son (node a k v c l m) r = node a k v c l m

abbrev pub AtMostOne : Shape → Shape → Type 0
AtMostOne l r = (addr_of l ≡ 0) ⊎ (addr_of r ≡ 0)

-- The tree that is left: the son, painted black if the removed node was black.
abbrev pub left_over : (color : Bool) → Shape → Shape
left_over c son = if c then son else blacken son

abbrev pub cleared : TreeNode → TreeNode
cleared n = record n { parent = 0; left = 0; right = 0; value = 0 }

-- The tree record once the node at `a` is freed.
abbrev pub without : Tree → (a : ℕ) → TreeNode → Tree
without tr a n = record tr {
  nodes = update (update tr.nodes a (some (cleared n))) a none;
  total = (tr.total + 2 ^ 64 - 1) % 2 ^ 64;
}

drop_node-at :
    (a : ℕ) (tr : Tree) (n : TreeNode)
    → 0 < a
    → tr.nodes a ≡ some n
    → drop_node a tr ≡ done n.value (without tr a n)
unfolding drop_node store free_node
drop_node-at a tr n pos at = rw (load-at a tr n pos at)

two_sons-at :
    (a : ℕ) (tr : Tree) (n : TreeNode)
    → 0 < a
    → tr.nodes a ≡ some n
    → two_sons a tr ≡ done (not (n.left == 0) && not (n.right == 0)) tr
unfolding two_sons
two_sons-at a tr n pos at = rw (left_of-at a tr n pos at, right_of-at a tr n pos at)

pub unlink_none : (fuel a : ℕ) (tr : Tree) → unlink fuel a 0 tr ≡ done tt (record tr { root = 0 })
unfolding unlink parent_of set_root
unlink_none fuel a tr = refl

-- With at most one son, treeRemove unlinks and frees the node itself.
pub remove_node-steps :
    (fuel a : ℕ) (tr after : Tree) (n m : TreeNode)
    → 0 < a
    → tr.nodes a ≡ some n
    → (not (n.left == 0) && not (n.right == 0)) ≡ false
    → unlink fuel a (if n.left == 0 then n.right else n.left) tr ≡ done tt after
    → after.nodes a ≡ some m
    → remove_node fuel a tr ≡ done m.value (without after a m)
unfolding remove_node
remove_node-steps fuel a tr after n m pos at one step still = rw (
  two_sons-at a tr n pos at,
  one,
  left_of-at a tr n pos at,
  right_of-at a tr n pos at,
  step,
  drop_node-at a after m pos still,
)

-- The son survives its own repainting and the end of the removed node.
pub Holds-promoted :
    (nodes : ℕ → Option TreeNode) (b k v : ℕ) (d c : Bool) (l r : Shape)
    → Holds nodes (node b k v d l r)
    → Distinct (node b k v d l r)
    → Holds (promoted nodes b (cell k v d l r) c) (left_over c (node b k v d l r))
Holds-promoted nodes b k v d true l r h e =
    (h.0, ground arith, Holds-update nodes b _ l e.0 h.2, Holds-update nodes b _ r e.1 h.3)
Holds-promoted nodes b k v d false l r h e =
    Holds-blacken _ (node b k v d l r) (λ f. cc) e
      (h.0, ground arith, Holds-update nodes b _ l e.0 h.2, Holds-update nodes b _ r e.1 h.3)
