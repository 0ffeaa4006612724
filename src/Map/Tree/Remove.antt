-- ===== src/Map/Tree/Remove.antt =====
-- treeRemove of src/map/tree.c for a node with at most one son. No node has a parent on record, so
-- the son of the removed node, or nothing, becomes the root of the tree wherever the node stood.
use redis_pool.Base.{
  ℕ, zero, suc, ◌<◌, ◌≡◌, refl, inl, inr, Bool, false, Option, some, arith, ltb, Bool-cases, ◌==◌,
  if◌then◌else◌,
}
use redis_pool.Map.Tree.Store.{
  TreeNode, black, Tree, done, load, store, update, set_root, set_color, set_black_color, left_of,
  get_color, is_black_color,
}
use redis_pool.Map.Tree.Fix.{remove_loop, fix_after_remove}
use redis_pool.Map.Tree.Ops.{find_loop, splice, unlink}
use redis_pool.Map.Tree.Shape.{Shape, leaf, node, addr_of, Holds, Distinct, height}
use redis_pool.Map.Tree.Grow.{painted}
use redis_pool.Map.Tree.Access.{parent_of-at, is_black_color-at, set_parent-at}

-- The subtree whose root has the key.
unfoldable pub subtree_at : (key : ℕ) → Shape → Shape
subtree_at key leaf = leaf
subtree_at key (node a k v c l r) =
    if ltb key k then subtree_at key l else if ltb k key then subtree_at key r else node a k v c l r

pub find_loop-subtree_at :
    (fuel key : ℕ) (tr : Tree) (t : Shape)
    → height t < fuel
    → Holds tr.nodes t
    → find_loop fuel key (addr_of t) tr ≡ done (addr_of (subtree_at key t)) tr
unfolding find_loop subtree_at load
find_loop-subtree_at zero key tr t h held = elim h [ ]
find_loop-subtree_at (suc fuel) key tr leaf h held = refl
find_loop-subtree_at (suc fuel) key tr (node a k v c l r) h held =
    ground (arith, find_loop-subtree_at fuel key tr l, find_loop-subtree_at fuel key tr r)

pub subtree_at-parts :
    (nodes : ℕ → Option TreeNode) (key : ℕ) (t : Shape)
    → Holds nodes t
    → Distinct t
    → Holds nodes (subtree_at key t) × Distinct (subtree_at key t)
unfolding subtree_at
subtree_at-parts nodes key leaf held d = (tt, tt)
subtree_at-parts nodes key (node a k v c l r) held d = elim (Bool-cases (ltb key k)) [
  | inl less ↦ rw less (subtree_at-parts nodes key l held.2 d.3)
  | inr ge ↦ elim (Bool-cases (ltb k key)) [
    | inl more ↦ rw (ge, more) (subtree_at-parts nodes key r held.3 d.4)
    | inr le ↦ rw (ge, le) (held, d)
  ]
]

-- The only son takes the root's place, and is painted black if the removed node was black.
abbrev pub promoted :
    (ℕ → Option TreeNode) → (b : ℕ) (m : TreeNode) (c : Bool) → ℕ → Option TreeNode
promoted nodes b m c =
    if c
    then update nodes b (some m)
    else update (update nodes b (some m)) b (some (painted m black))

fix_after_remove-root :
    (fuel b : ℕ) (tr : Tree) (m : TreeNode)
    → 0 < b
    → tr.root ≡ b
    → tr.nodes b ≡ some m
    → fix_after_remove (suc fuel) b tr
      ≡ done tt (record tr { nodes = update tr.nodes b (some (painted m black)) })
unfolding fix_after_remove remove_loop set_black_color set_color is_black_color get_color load store
fix_after_remove-root fuel b tr m pos top at = ground arith

abbrev pub orphan : TreeNode → TreeNode
orphan n = record n { parent = 0 }

pub unlink_son :
    (fuel a b : ℕ) (tr : Tree) (n m : TreeNode)
    → 0 < a
    → 0 < b
    → (a == b) ≡ false
    → tr.nodes a ≡ some (orphan n)
    → tr.nodes b ≡ some (orphan m)
    → unlink (suc fuel) a b tr
      ≡ done tt (record tr { root = b; nodes = promoted tr.nodes b (orphan m) n.color })
unfolding unlink splice set_root
unlink_son fuel a b tr n m a_pos b_pos ne at at_b =
    let b_set : (b == 0) ≡ false = ground arith in
    let moved : Tree = record tr { root = b; nodes = update tr.nodes b (some (orphan m)) } in
    rw (b_set, parent_of-at a tr (orphan n) a_pos at, set_parent-at b tr (orphan m) b_pos at_b 0)
      (unfold left_of in
        rw (is_black_color-at a moved (orphan n) a_pos (ground arith)) (elim (Bool-cases n.color) [
          | inl e ↦ rw e
          | inr e ↦ rw e (fix_after_remove-root fuel b moved (orphan m) b_pos refl (ground arith))
        ]))
