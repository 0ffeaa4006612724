-- ===== src/Cmd/Hangup.antt =====
-- SIGHUP at the parent: stopWorker of src/cmd.c.
use redis_pool.Base.{
  ℕ, suc, ◌+◌, ◌*◌, ◌^◌, ◌≤◌, ◌<◌, ◌≡◌, refl, sym, ap, ◌∙◌, true, false, Option, some, List, [],
  ◌∷◌, map, arith, ◌==◌, if◌then◌else◌, length,
}
use redis_pool.Map.Tree.Store.{Tree}
use redis_pool.Map.Tree.Store as Store
use redis_pool.Map.Tree.Ops.{Status, s_ok, is_full, new_tree, tree_put, tree_get}
use redis_pool.Map.Tree.Shape.{Shape, leaf, IsTree, height, lookup, contains, insert}
use redis_pool.Map.Tree.Put.{IsPut, after_put, tree_put-IsPut}
use redis_pool.Map.Tree.Get.{tree_get-lookup}
use redis_pool.Map.Tree.Foreach.{foreach_tree}
use redis_pool.Map.Tree.Foreach.Visit.{in_order, size_of, foreach_tree-in_order}
use redis_pool.Cmd.{
  StopWorld, Globals, done, kill_loop, signal_all, visit_children, after_loop, stop_worker, sig_hup,
  sig_term,
}

abbrev pub ended : ℕ × ℕ → ℕ × ℕ
ended e = (e.0, sig_term)

kill_loop-term :
    (w : StopWorld) (i : ℕ) (es : List (ℕ × ℕ)) (t : Tree)
    → kill_loop w i sig_term es t ≡ Store.done (sig_term, map ended es) t
unfolding kill_loop
kill_loop-term w i [] t = refl
kill_loop-term w i (e ∷ es) t = rw (kill_loop-term w (i + 1) es t) refl

kill_loop-hangup :
    (w : StopWorld) (k v : ℕ) (es : List (ℕ × ℕ)) (t t' : Tree) {status : Status}
    → tree_put w.fuel (w.node 0) k v t ≡ Store.done status t'
    → kill_loop w 0 sig_hup ((k, v) ∷ es) t ≡ Store.done (sig_term, map ended ((k, v) ∷ es)) t'
unfolding kill_loop
kill_loop-hangup w k v es t t' e = rw (e, kill_loop-term w 1 es t') refl

new_tree-not_full : (max : ℕ) → is_full (new_tree max) ≡ false
unfolding new_tree
new_tree-not_full max = ground arith

new_tree-IsTree : (max : ℕ) → IsTree (new_tree max) leaf
unfolding new_tree
new_tree-IsTree max = record { leads = refl; held = tt; distinct = tt }

module _ (f k v tmp max : ℕ) (t' : Tree) (put : IsPut k v tmp (new_tree max) leaf t') where
  lookup-first : (key : ℕ) → lookup key (after_put k v tmp leaf) ≡ (if key == k then v else 0)
  unfolding lookup insert contains
  lookup-first key = ground arith

  height-first : height (after_put k v tmp leaf) < suc (suc f)
  unfolding insert contains
  height-first = omega arith

  total-first : t'.total ≡ 1
  unfolding contains new_tree
  total-first = put.count

  tree_get-first :
      (key : ℕ) → tree_get (suc (suc f)) key t' ≡ Store.done (if key == k then v else 0) t'
  tree_get-first key =
      tree_get-lookup (suc (suc f)) key t' (after_put k v tmp leaf) height-first put.tree
      ∙ ap (λ n. Store.done n t') (lookup-first key)

-- The parent knows the first child alone.
pub record KnowsOne (f k v : ℕ) (children : Option Tree) : Type 0 where
  pub own : (t : Tree) × (children ≡ some t)
  pub one : own.0.total ≡ 1
  pub found :
      (key : ℕ) → tree_get (suc (suc f)) key own.0 ≡ Store.done (if key == k then v else 0) own.0

-- For a parent whose children are a search tree with an entry for each, no higher than its `total`, and
-- memory for the stack, the new tree and its node: at SIGHUP stopWorker ends, has sent SIGTERM once to
-- each child, in the order of the tree, and `children` of globals is a tree with one entry, that of the
-- first child; the others are found no more.
pub stop_worker-hangup :
    (w : StopWorld) (f clients : ℕ) (slots : List ℕ) (g : Globals) (tr : Tree) (t : Shape)
    → g.children ≡ some tr
    → IsTree tr t
    → 0 < tr.total
    → tr.total ≤ length slots
    → height t ≤ tr.total
    → tr.total < 2 ^ 31
    → 2 * size_of t < suc (suc f)
    → w.fuel ≡ suc (suc f)
    → w.tree_ok ≡ true
    → w.stack_ok ≡ true
    → w.slots ≡ some slots
    → 0 < w.node 0
    → (k v : ℕ) (es : List (ℕ × ℕ)) → in_order t ≡ (k, v) ∷ es
    → (g' : Globals) × (stop_worker w sig_hup true clients g ≡ done g' (map ended (in_order t)))
      × KnowsOne f k v g'.children
      × (g'.is_exit ≡ g.is_exit)
unfolding stop_worker
stop_worker-hangup w f clients slots g tr t has_children is some_left stack room small enough fuel
      tree_ok stack_ok slots_ok node k v es first =
    let visits : foreach_tree w.fuel w.stack_ok w.slots tr ≡ Store.done (in_order t) tr =
      ap (λ n. foreach_tree n w.stack_ok w.slots tr) fuel
      ∙ ap (λ b. foreach_tree (suc (suc f)) b w.slots tr) stack_ok
      ∙ ap (λ o. foreach_tree (suc (suc f)) true o tr) slots_ok
      ∙ foreach_tree-in_order (suc (suc f)) slots tr t is stack room small enough in
    let (t', puts, put) =
      tree_put-IsPut (suc f) (w.node 0) k v (new_tree tr.max) leaf (new_tree-IsTree tr.max)
        (new_tree-not_full tr.max) refl node (omega arith) in
    let putting : tree_put w.fuel (w.node 0) k v (new_tree tr.max) ≡ Store.done s_ok t' =
      ap (λ n. tree_put n (w.node 0) k v (new_tree tr.max)) fuel ∙ puts in
    let kills : kill_loop w 0 sig_hup (in_order t) (new_tree tr.max)
        ≡ Store.done (sig_term, map ended (in_order t)) t' =
      ap (λ l. kill_loop w 0 sig_hup l (new_tree tr.max)) first
      ∙ kill_loop-hangup w k v es (new_tree tr.max) t' putting
      ∙ ap (λ l. Store.done (sig_term, map ended l) t') (sym first) in
    let some_child : (tr.total == 0) ≡ false = ground (arith, some_left) in
    (
      record g { children = some t' },
      ap (signal_all w sig_hup g) has_children
          ∙ rw (some_child, tree_ok)
              (ap (visit_children w sig_hup g tr (new_tree tr.max)) visits
                ∙ ap (after_loop w g tr) kills),
      record {
        own = (t', refl);
        one = total-first f k v (w.node 0) tr.max t' put;
        found = tree_get-first f k v (w.node 0) tr.max t' put;
      },
      refl,
    )
