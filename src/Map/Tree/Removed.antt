-- ===== src/Map/Tree/Removed.antt =====
-- What is left of the tree after treeRemove of src/map/tree.c.
use redis_pool.Base.{
  ℕ, suc, ◌+◌, ◌-◌, ◌%◌, ◌^◌, ◌<◌, ◌≡◌, refl, ap, sym, ◌∙◌, inl, inr, Bool, true, false, not, ◌&&◌,
  Option, none, some, arith, Bool-cases, ◌==◌, if◌then◌else◌,
}
use mathlib.Core.Path.{subst}
use redis_pool.Map.Tree.Store.{TreeNode, Tree, done}
use redis_pool.Map.Tree.Ops.{find_loop, unlink, remove_node, get_tree_node, tree_remove, tree_get}
use redis_pool.Map.Tree.Shape.{
  Shape, leaf, node, addr_of, cell, Holds, Holds-update, has, Distinct, height, lookup, IsTree,
}
use redis_pool.Map.Tree.Grow.{blacken-Distinct, addr_of-blacken}
use redis_pool.Map.Tree.Get.{tree_get-lookup}
use redis_pool.Map.Tree.Remove.{
  promoted, unlink_son, subtree_at, subtree_at-parts, find_loop-subtree_at,
}
use redis_pool.Map.Tree.Promote.{
  only_son, AtMostOne, left_over, without, unlink_none, remove_node-steps, Holds-promoted,
}

-- The outcome of a removal of the value `v` that leaves the shape `rest`.
pub record IsRemoval (v : ℕ) (tr : Tree) (rest : Shape) (tr' : Tree) : Type 0 where
  pub tree : IsTree tr' rest
  pub count : tr'.total ≡ (tr.total + 2 ^ 64 - 1) % 2 ^ 64
  pub kept : tr'.released ≡ tr.released
  pub limit : tr'.max ≡ tr.max

left_over-Distinct : (c : Bool) (t : Shape) → Distinct t → Distinct (left_over c t)
left_over-Distinct true t d = d
left_over-Distinct false t d = blacken-Distinct t d

addr_of-left_over : (c : Bool) (t : Shape) → addr_of (left_over c t) ≡ addr_of t
addr_of-left_over true t = refl
addr_of-left_over false t = addr_of-blacken t

has-left_over : (p : ℕ) (c : Bool) (t : Shape) → has p t ≡ false → has p (left_over c t) ≡ false
has-left_over p true t h = h
has-left_over p false leaf h = refl
has-left_over p false (node a k v c l r) h = h

promoted-other :
    (nodes : ℕ → Option TreeNode) (b : ℕ) (m : TreeNode) (c : Bool) (a : ℕ)
    → (a == b) ≡ false
    → promoted nodes b m c a ≡ nodes a
promoted-other nodes b m true a e = rw e
promoted-other nodes b m false a e = rw e

left_over-leaf : (c : Bool) → left_over c leaf ≡ leaf
left_over-leaf true = refl
left_over-leaf false = refl

ne_zero : (b : ℕ) → 0 < b → (b == 0) ≡ false
ne_zero b pos = ground arith

-- The son `node b …` of the removed node `n` at `a`.
module _ (fuel a : ℕ) (tr : Tree) (n : TreeNode) (b j w : ℕ) (d : Bool) (l r : Shape) (pos : 0 < a)
    (at : tr.nodes a ≡ some (record n { parent = 0 })) (held : Holds tr.nodes (node b j w d l r))
    (distinct : Distinct (node b j w d l r)) (out : has a (node b j w d l r) ≡ false)
    (one : (not (n.left == 0) && not (n.right == 0)) ≡ false)
    (points : (if n.left == 0 then n.right else n.left) ≡ b) where
  abbrev after : Tree
  after = record tr { root = b; nodes = promoted tr.nodes b (cell j w d l r) n.color }

  apart : (a == b) ≡ false
  apart = ground arith

  still : after.nodes a ≡ some (record n { parent = 0 })
  still = promoted-other tr.nodes b (cell j w d l r) n.color a apart ∙ at

  remove_son :
      (tr' : Tree) × (remove_node (suc fuel) a tr ≡ done n.value tr')
      × IsRemoval n.value tr (left_over n.color (node b j w d l r)) tr'
  remove_son =
      let son = node b j w d l r in
      let rest = left_over n.color son in
      let gone : has a rest ≡ false = has-left_over a n.color son out in
      (
        without after a (record n { parent = 0 }),
        remove_node-steps (suc fuel) a tr after (record n { parent = 0 }) (record n { parent = 0 })
            pos at one
            (ap (λ p. unlink (suc fuel) a p tr) points
              ∙ unlink_son fuel a b tr n (cell j w d l r) pos held.0 apart at held.1)
            still,
        record {
          tree = record {
            leads = sym (addr_of-left_over n.color son);
            held = Holds-update _ a none rest gone (
                Holds-update _ a _ rest gone
                  (Holds-promoted tr.nodes b j w d n.color l r held distinct));
            distinct = left_over-Distinct n.color son distinct;
          };
          count = refl;
          kept = refl;
          limit = refl;
        },
      )

remove_node-only_son :
    (fuel a k v : ℕ) (c : Bool) (l r : Shape) (tr : Tree)
    → Holds tr.nodes (node a k v c l r)
    → Distinct (node a k v c l r)
    → AtMostOne l r
    → (tr' : Tree) × (remove_node (suc fuel) a tr ≡ done v tr')
      × IsRemoval v tr (left_over c (only_son l r)) tr'
remove_node-only_son fuel a k v c leaf leaf tr held distinct one = (
  without (record tr { root = 0 }) a (cell k v c leaf leaf),
  remove_node-steps (suc fuel) a tr (record tr { root = 0 }) (cell k v c leaf leaf)
      (cell k v c leaf leaf) held.0 held.1 refl (unlink_none (suc fuel) a tr) held.1,
  record {
    tree = record {
      leads = sym (addr_of-left_over c leaf);
      held = elim (Bool-cases c) [ inl e ↦ rw e tt | inr e ↦ rw e tt ];
      distinct = left_over-Distinct c leaf tt;
    };
    count = refl;
    kept = refl;
    limit = refl;
  },
)
remove_node-only_son fuel a k v c leaf (node b j w d m n) tr held distinct one =
    remove_son fuel a tr (cell k v c leaf (node b j w d m n)) b j w d m n held.0 held.1 held.3
      distinct.4 distinct.1 refl refl
remove_node-only_son fuel a k v c (node b j w d m n) leaf tr held distinct one =
    remove_son fuel a tr (cell k v c (node b j w d m n) leaf) b j w d m n held.0 held.1 held.2
      distinct.3 distinct.0 (rw (ne_zero b held.2.0)) (rw (ne_zero b held.2.0))
remove_node-only_son fuel a k v c (node b j w d m n) (node b' j' w' d' m' n') tr held distinct one =
    absurd (omega (arith, held.2.0, held.3.0))

get_tree_node-subtree_at :
    (fuel key : ℕ) (tr : Tree) (t : Shape)
    → IsTree tr t
    → height t < fuel
    → get_tree_node fuel key tr ≡ done (addr_of (subtree_at key t)) tr
unfolding get_tree_node
get_tree_node-subtree_at fuel key tr t is_tree deep =
    subst (λ p. find_loop fuel key p tr ≡ done (addr_of (subtree_at key t)) tr) (sym is_tree.leads)
      (find_loop-subtree_at fuel key tr t deep is_tree.held)

subtree_at-addr_of :
    (nodes : ℕ → Option TreeNode) (key : ℕ) (t : Shape)
    → Holds nodes t
    → (addr_of (subtree_at key t) == 0) ≡ false
    → (addr_of t == 0) ≡ false
unfolding subtree_at
subtree_at-addr_of nodes key leaf held at = at
subtree_at-addr_of nodes key (node a k v c l r) held at = ne_zero a held.0

tree_remove-found :
    (fuel key a : ℕ) (tr : Tree)
    → get_tree_node fuel key tr ≡ done a tr
    → (tr.root == 0) ≡ false
    → (a == 0) ≡ false
    → tree_remove fuel key tr ≡ remove_node fuel a tr
unfolding tree_remove
tree_remove-found fuel key a tr at root pos = rw (root, at, pos)

-- With fuel above the height, treeRemove of a key whose node has at most one son succeeds and returns
-- its value; `total` goes down by one, and what is left of the tree is that son alone, black if the
-- removed node was black, wherever the node stood.
pub tree_remove-IsRemoval :
    (fuel key : ℕ) (tr : Tree) (t : Shape) (a k v : ℕ) (c : Bool) (l r : Shape)
    → IsTree tr t
    → height t < suc fuel
    → subtree_at key t ≡ node a k v c l r
    → AtMostOne l r
    → (tr' : Tree) × (tree_remove (suc fuel) key tr ≡ done v tr')
      × IsRemoval v tr (left_over c (only_son l r)) tr'
tree_remove-IsRemoval fuel key tr t a k v c l r is_tree deep at one =
    let parts : Holds tr.nodes (node a k v c l r) × Distinct (node a k v c l r) =
      subst (λ s. Holds tr.nodes s × Distinct s) at
        (subtree_at-parts tr.nodes key t is_tree.held is_tree.distinct) in
    let (tr', runs, removal) = remove_node-only_son fuel a k v c l r tr parts.0 parts.1 one in
    let here : (addr_of (subtree_at key t) == 0) ≡ false = rw at (ne_zero a parts.0.0) in
    (
      tr',
      tree_remove-found (suc fuel) key a tr
            (subst (λ s. get_tree_node (suc fuel) key tr ≡ done (addr_of s) tr) at
              (get_tree_node-subtree_at (suc fuel) key tr t is_tree deep))
            (rw is_tree.leads (subtree_at-addr_of tr.nodes key t is_tree.held here))
            (ne_zero a parts.0.0)
          ∙ runs,
      removal,
    )

-- With fuel above the height, treeRemove of a key whose node has no son returns its value, and leaves
-- a tree in which treeGet gives nothing for every key.
pub tree_remove-leaf :
    (fuel key : ℕ) (tr : Tree) (t : Shape) (a k v : ℕ) (c : Bool)
    → IsTree tr t
    → height t < suc fuel
    → subtree_at key t ≡ node a k v c leaf leaf
    → (tr' : Tree) × (tree_remove (suc fuel) key tr ≡ done v tr')
      × ((other : ℕ) → tree_get (suc fuel) other tr' ≡ done 0 tr')
unfolding lookup
tree_remove-leaf fuel key tr t a k v c is_tree deep at =
    let (tr', runs, removal) =
      tree_remove-IsRemoval fuel key tr t a k v c leaf leaf is_tree deep at (inl refl) in
    (
      tr',
      runs,
      λ other.
          tree_get-lookup (suc fuel) other tr' leaf (ground arith)
            (subst (IsTree tr') (left_over-leaf c) removal.tree),
    )
