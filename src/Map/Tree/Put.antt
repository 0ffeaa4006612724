-- ===== src/Map/Tree/Put.antt =====
-- treePut of src/map/tree.c, on a tree that the memory holds.
use mathlib.Core.Path.{fun_ext, subst}
use redis_pool.Base.{
  ℕ, suc, ◌+◌, ◌%◌, ◌^◌, ◌<◌, ◌≡◌, ◌≢◌, refl, ap, sym, ◌∙◌, Bool, false, not, ◌&&◌, Option, some,
  ◌∷◌, arith, ◌==◌, if◌then◌else◌,
}
use redis_pool.Map.Tree.Store.{TreeNode, Tree, done, load, store, update}
use redis_pool.Map.Tree.Ops.{
  s_ok, Place, found, below, new_tree_node, free_map_value, place_loop, replace_value, put_at,
  is_full, tree_put,
}
use redis_pool.Map.Tree.Shape.{
  Shape, leaf, node, addr_of, Holds, has, height, lookup, insert, contains, blacken, IsTree,
}
use redis_pool.Map.Tree.Grow.{
  insert-Distinct, blacken-Distinct, root_node, Holds-root, Holds-blacken, insert-ne-leaf,
  addr_of-blacken, has-pos, ne_of_has,
}
use redis_pool.Map.Tree.Place.{
  addr_of-insert, place_at, place_loop-place_at, with_link, red_node, Puts, Puts-place_at,
}
use redis_pool.Map.Tree.AddNode.{grown, add_node_below, add_node_empty}

-- The shape after treePut, with the address of a new node: the root is painted only with one.
abbrev pub after_put : (key value tmp : ℕ) → Shape → Shape
after_put key value tmp t =
    if contains key t then insert key value tmp t else blacken (insert key value tmp t)

-- What treePut gives: the insertion, one more entry if the key is new, and the old value freed.
pub record IsPut (key value tmp : ℕ) (tr : Tree) (t : Shape) (tr' : Tree) : Type 0 where
  pub tree : IsTree tr' (after_put key value tmp t)
  pub count : tr'.total ≡ (if contains key t then tr.total else (tr.total + 1) % 2 ^ 64)
  pub freed : tr'.released ≡ (
      if contains key t && not (lookup key t == 0) then lookup key t ∷ tr.released else tr.released)
  pub limit : tr'.max ≡ tr.max

module _ (fuel tmp key value : ℕ) (tr : Tree) (t : Shape) (is : IsTree tr t)
    (unused : has tmp t ≡ false) (pos : 0 < tmp) where
  abbrev Put : Place → Type 0
  Put place =
      (tr' : Tree) × (put_at (suc fuel) tmp key value place tr ≡ done s_ok tr')
      × IsPut key value tmp tr t tr'

  Put-found : (q : ℕ) → t ≢ leaf → Puts tr.nodes key value tmp t (found q) → Put (found q)
  unfolding put_at replace_value load store free_map_value
  Put-found q ne (n, at, in_t, there, old, rest) = (
    record tr {
      nodes = update tr.nodes q (some (record n { value = value }));
      released = if n.value == 0 then tr.released else n.value ∷ tr.released;
    },
    ground arith,
    record {
      tree = rw there (record {
        leads = is.leads ∙ sym (addr_of-insert tr.nodes key value tmp t ne);
        held = rest;
        distinct = insert-Distinct key value tmp t unused is.distinct;
      });
      count = rw there;
      freed = ground arith;
      limit = refl;
    },
  )

  abbrev t' : Shape
  t' = insert key value tmp t

  -- The new node is written twice, and its first colour is lost.
  write_order :
      (q : ℕ) (n : Option TreeNode) (new last : Option TreeNode)
      → update (update tr.nodes q n) tmp last
        ≡ update (update (update tr.nodes tmp new) q n) tmp last
  write_order q n new last = fun_ext λ p. ground arith

  grown-IsPut :
      (nodes : ℕ → Option TreeNode)
      → contains key t ≡ false
      → Holds (update nodes tmp (some (red_node key value))) t'
      → IsPut key value tmp tr t (grown tr nodes (addr_of t') tmp key value (root_node t'))
  grown-IsPut nodes new held = record {
    tree = rw new (record {
      leads = sym (addr_of-blacken t');
      held =
          Holds-blacken _ t' (insert-ne-leaf key value tmp t)
            (insert-Distinct key value tmp t unused is.distinct) held;
      distinct = blacken-Distinct t' (insert-Distinct key value tmp t unused is.distinct);
    });
    count = rw new;
    freed = rw new;
    limit = refl;
  }

  Put-below :
      (q : ℕ) (side : Bool)
      → t ≢ leaf
      → Puts tr.nodes key value tmp t (below q side)
      → Put (below q side)
  unfolding put_at
  Put-below q side ne (n, at, in_t, there, rest) =
      let w = some (with_link side tmp n) in
      let nodes = update (update tr.nodes tmp (some (new_tree_node key value))) q w in
      let held : Holds (update nodes tmp (some (red_node key value))) t' =
        subst (λ f. Holds f t') (write_order q w _ _) rest in
      let same : addr_of t' ≡ tr.root = addr_of-insert tr.nodes key value tmp t ne ∙ sym is.leads in
      let root = Holds-root _ t' (insert-ne-leaf key value tmp t) held in
      (
        grown tr nodes tr.root tmp key value (root_node t'),
        add_node_below fuel tmp key value q side tr n (root_node t') pos
            (has-pos tr.nodes q t is.held in_t) (ne_of_has tmp q t unused in_t) at
            (subst (λ a. 0 < a) same root.0)
            (subst (λ a. update nodes tmp (some (red_node key value)) a ≡ some (root_node t')) same
              root.1),
        subst (λ a. IsPut key value tmp tr t (grown tr nodes a tmp key value (root_node t'))) same
            (grown-IsPut nodes there held),
      )

  Put-place : (place : Place) → t ≢ leaf → Puts tr.nodes key value tmp t place → Put place
  Put-place (found q) ne p = Put-found q ne p
  Put-place (below q side) ne p = Put-below q side ne p

IsPut-empty :
    (fuel tmp key value : ℕ) (side : Bool) (tr : Tree)
    → IsTree tr leaf
    → 0 < tmp
    → (tr' : Tree) × (put_at (suc fuel) tmp key value (below 0 side) tr ≡ done s_ok tr')
      × IsPut key value tmp tr leaf tr'
unfolding put_at contains insert
IsPut-empty fuel tmp key value side tr is pos = (
  grown tr (update tr.nodes tmp (some (new_tree_node key value))) tmp tmp key value
      (red_node key value),
  add_node_empty fuel tmp key value side tr pos,
  record {
    tree = record { leads = refl; held = (pos, ground arith, tt, tt); distinct = ground arith };
    count = refl;
    freed = refl;
    limit = refl;
  },
)

IsPut-anywhere :
    (fuel tmp key value : ℕ) (tr : Tree) (t : Shape)
    → IsTree tr t
    → has tmp t ≡ false
    → 0 < tmp
    → (tr' : Tree) × (put_at (suc fuel) tmp key value (place_at key t 0 false) tr ≡ done s_ok tr')
      × IsPut key value tmp tr t tr'
IsPut-anywhere fuel tmp key value tr leaf is unused pos =
    unfold place_at in IsPut-empty fuel tmp key value false tr is pos
IsPut-anywhere fuel tmp key value tr (node a k v c l r) is unused pos =
    let t = node a k v c l r in
    let ne : t ≢ leaf = λ e. cc in
    Put-place fuel tmp key value tr t is unused pos (place_at key t 0 false) ne
      (Puts-place_at tr.nodes key value tmp t is.held is.distinct unused pos ne 0 false)

-- treePut on a tree that is not full, with a new address and fuel above the height, succeeds: the
-- memory then holds the search tree with the key inserted, or its value replaced; `total` grows by
-- one exactly if the key is new, and exactly a replaced value that is not NULL is freed. The shape
-- is that of the plain insertion, with a red new node and, for a new key, a black root.
pub tree_put-IsPut :
    (fuel tmp key value : ℕ) (tr : Tree) (t : Shape)
    → IsTree tr t
    → is_full tr ≡ false
    → has tmp t ≡ false
    → 0 < tmp
    → height t < suc fuel
    → (tr' : Tree) × (tree_put (suc fuel) tmp key value tr ≡ done s_ok tr')
      × IsPut key value tmp tr t tr'
unfolding tree_put
tree_put-IsPut fuel tmp key value tr t is room unused pos enough =
    let (tr', run, put) = IsPut-anywhere fuel tmp key value tr t is unused pos in
    let place =
      ap (λ p. place_loop (suc fuel) key p 0 false tr) is.leads
      ∙ place_loop-place_at (suc fuel) key tr t 0 false enough is.held in
    (tr', rw (room, place) run, put)
