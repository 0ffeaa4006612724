-- ===== src/Map/Tree/PutGet.antt =====
-- treeGet after treePut of src/map/tree.c.
use redis_pool.Base.{
  ℕ, suc, ◌<◌, ◌≡◌, refl, ap, ◌∙◌, inl, inr, false, arith, Bool-cases, ◌==◌, if◌then◌else◌,
}
use redis_pool.Map.Tree.Store.{Tree, done}
use redis_pool.Map.Tree.Ops.{s_ok, is_full, tree_put, tree_get}
use redis_pool.Map.Tree.Shape.{
  Shape, leaf, node, has, height, lookup, insert, contains, blacken, lookup-insert, lookup-blacken,
  IsTree,
}
use redis_pool.Map.Tree.Get.{tree_get-lookup}
use redis_pool.Map.Tree.Put.{after_put, tree_put-IsPut}
use Prim.Native.Nat.{◌≤◌}

height-insert : (key value tmp : ℕ) (t : Shape) → height (insert key value tmp t) ≤ suc (height t)
unfolding insert
height-insert key value tmp leaf = omega arith
height-insert key value tmp (node a k v c l r) =
    ground (arith, height-insert key value tmp l, height-insert key value tmp r)

height-blacken : (t : Shape) → height (blacken t) ≡ height t
height-blacken leaf = refl
height-blacken (node a k v c l r) = refl

height-after_put :
    (key value tmp : ℕ) (t : Shape) → height (after_put key value tmp t) ≤ suc (height t)
height-after_put key value tmp t =
    ground (arith, height-insert key value tmp t, height-blacken (insert key value tmp t))

lookup-after_put :
    (key value tmp other : ℕ) (t : Shape)
    → lookup other (after_put key value tmp t) ≡ (if other == key then value else lookup other t)
lookup-after_put key value tmp other t = elim (Bool-cases (contains key t)) [
  | inl old ↦ rw old (lookup-insert key value tmp other t)
  | inr new ↦
      rw new (lookup-blacken other (insert key value tmp t) ∙ lookup-insert key value tmp other t)
]

-- treePut on a tree that is not full, with a new address and fuel above the height, succeeds, and a
-- treeGet then gives the value at the key that was put, and what the tree had before at any other.
pub tree_get-tree_put :
    (fuel tmp key value other : ℕ) (tr : Tree) (t : Shape)
    → IsTree tr t
    → is_full tr ≡ false
    → has tmp t ≡ false
    → 0 < tmp
    → height t < suc fuel
    → (tr' : Tree) × (tree_put (suc fuel) tmp key value tr ≡ done s_ok tr')
      × (tree_get (suc (suc fuel)) other tr'
          ≡ done (if other == key then value else lookup other t) tr')
tree_get-tree_put fuel tmp key value other tr t is room unused pos enough =
    let (tr', run, put) = tree_put-IsPut fuel tmp key value tr t is room unused pos enough in
    (
      tr',
      run,
      tree_get-lookup (suc (suc fuel)) other tr' (after_put key value tmp t)
            (omega (arith, height-after_put key value tmp t)) put.tree
          ∙ ap (λ v. done v tr') (lookup-after_put key value tmp other t),
    )
