-- ===== src/Map/Tree/AddNode.antt =====
-- The node that treePut of src/map/tree.c adds. newTreeNode records no parent, so the repair after an
-- insertion meets a root in every node: its loop makes no round, and the tree is not rebalanced.
use redis_pool.Base.{
  ℕ, suc, ◌+◌, ◌%◌, ◌^◌, ◌<◌, ◌≡◌, refl, Bool, true, false, Option, some, arith, ◌==◌,
}
use redis_pool.Map.Tree.Store.{
  TreeNode, red, black, Tree, done, load, store, update, set_root, set_left, set_right, set_color,
  set_red_color, set_black_color, parent_of, get_color, is_red_color,
}
use redis_pool.Map.Tree.Fix.{insert_loop, fix_after_insert}
use redis_pool.Map.Tree.Ops.{s_ok, new_tree_node, link, add_node}
use redis_pool.Map.Tree.Grow.{painted}
use redis_pool.Map.Tree.Place.{with_link, red_node}

-- The repair paints the new node red and the root black.
pub fix_after_insert-paint :
    (fuel tmp : ℕ) (tr : Tree) (n m : TreeNode)
    → 0 < tmp
    → tr.nodes tmp ≡ some n
    → n.parent ≡ 0
    → 0 < tr.root
    → update tr.nodes tmp (some (painted n red)) tr.root ≡ some m
    → fix_after_insert (suc fuel) tmp tr
      ≡ done tt (record tr {
        nodes =
            update (update tr.nodes tmp (some (painted n red))) tr.root (some (painted m black));
      })
unfolding fix_after_insert insert_loop set_red_color set_black_color set_color parent_of
    is_red_color get_color load store
fix_after_insert-paint fuel tmp tr n m pos at orphan root_pos root_at = ground arith

link_below :
    (q tmp : ℕ) (side : Bool) (tr : Tree) (n : TreeNode)
    → 0 < q
    → tr.nodes q ≡ some n
    → link q side tmp tr
      ≡ done tt (record tr { nodes = update tr.nodes q (some (with_link side tmp n)) })
unfolding link set_left set_right load store
link_below q tmp true tr n pos at = ground arith
link_below q tmp false tr n pos at = ground arith

-- The tree record after the writes at `nodes`, the new node counted and painted.
abbrev pub grown : Tree → (nodes : ℕ → Option TreeNode) → (root tmp key value : ℕ) → TreeNode → Tree
grown tr nodes root tmp key value m = record tr {
  root = root;
  total = (tr.total + 1) % 2 ^ 64;
  nodes = update (update nodes tmp (some (red_node key value))) root (some (painted m black));
}

pub add_node_below :
    (fuel tmp key value q : ℕ) (side : Bool) (tr : Tree) (n m : TreeNode)
    → 0 < tmp
    → 0 < q
    → (tmp == q) ≡ false
    → tr.nodes q ≡ some n
    → 0 < tr.root
    → update
        (update
          (update tr.nodes tmp (some (new_tree_node key value)))
          q
          (some (with_link side tmp n)))
        tmp
        (some (red_node key value))
        tr.root
      ≡ some m
    → add_node (suc fuel) tmp key value q side tr
      ≡ done s_ok (
          grown tr
            (update
              (update tr.nodes tmp (some (new_tree_node key value)))
              q
              (some (with_link side tmp n)))
            tr.root
            tmp
            key
            value
            m)
unfolding add_node store
add_node_below fuel tmp key value q side tr n m pos q_pos ne at root_pos root_at =
    let new = some (new_tree_node key value) in
    let stored : Tree = record tr { nodes = update tr.nodes tmp new } in
    let linked : Tree = record stored {
      nodes = update stored.nodes q (some (with_link side tmp n));
      total = (tr.total + 1) % 2 ^ 64;
    } in
    let given : (tmp == 0) ≡ false = ground arith in
    rw (
      given,
      link_below q tmp side stored n q_pos (ground arith),
      fix_after_insert-paint fuel tmp linked (new_tree_node key value) m pos (ground arith) refl
          root_pos root_at,
    )

pub add_node_empty :
    (fuel tmp key value : ℕ) (side : Bool) (tr : Tree)
    → 0 < tmp
    → add_node (suc fuel) tmp key value 0 side tr
      ≡ done s_ok (
          grown tr
            (update tr.nodes tmp (some (new_tree_node key value)))
            tmp
            tmp
            key
            value
            (red_node key value))
unfolding add_node store link set_root
add_node_empty fuel tmp key value side tr pos =
    let new = some (new_tree_node key value) in
    let linked : Tree = record tr {
      root = tmp;
      nodes = update tr.nodes tmp new;
      total = (tr.total + 1) % 2 ^ 64;
    } in
    let given : (tmp == 0) ≡ false = ground arith in
    rw (
      given,
      fix_after_insert-paint fuel tmp linked (new_tree_node key value) (red_node key value) pos
          (ground arith) refl pos (ground arith),
    )
