-- ===== src/Map/Tree/Foreach/Visit.antt =====
-- The order in which FOREACH_TREE of src/map/tree.h visits the nodes.
use redis_pool.Base.{
  ℕ, zero, suc, ◌+◌, ◌*◌, ◌%◌, ◌^◌, ◌≤◌, ◌<◌, ◌≡◌, refl, sym, ap, ◌∙◌, Bool, true, false, Option,
  some, List, [], ◌∷◌, ◌++◌, map, arith, lt→ltb, ◌==◌, length,
}
use redis_pool.Base.Int.{pos}
use mathlib.Core.Path.{subst}
use redis_pool.RStack.{RStack, new_rstack, is_empty_rstack, push_rstack, pop_rstack}
use redis_pool.RStack.Laws.{
  IsStack, elements, pop_rstack-cons, push_rstack-room, is_empty_rstack_lem, elements_empty,
}
use redis_pool.Map.Tree.Store.{TreeNode, Tree, done}
use redis_pool.Map.Tree.Shape.{Shape, leaf, node, addr_of, cell, Holds, height, IsTree}
use redis_pool.Map.Tree.Access.{load-at, left_of-at, right_of-at}
use redis_pool.Map.Tree.Foreach.{to_int32, foreach_loop, foreach_tree}

-- The entries of the tree, a node between its two sons.
unfoldable pub in_order : Shape → List (ℕ × ℕ)
in_order leaf = []
in_order (node a k v c l r) = in_order l ++ ((k, v) ∷ in_order r)

unfoldable pub size_of : Shape → ℕ
size_of leaf = 0
size_of (node a k v c l r) = suc (size_of l + size_of r)

-- A node on the stack: it and its right subtree are still to be visited.
record Frame : Type 0 where
  at : ℕ
  key : ℕ
  value : ℕ
  color : Bool
  l : Shape
  r : Shape

abbrev whole : Frame → Shape
whole f = node f.at f.key f.value f.color f.l f.r

pending : List Frame → List (ℕ × ℕ)
pending [] = []
pending (f ∷ fs) = (f.key, f.value) ∷ (in_order f.r ++ pending fs)

rounds : List Frame → ℕ
rounds [] = 0
rounds (f ∷ fs) = suc (2 * size_of f.r + rounds fs)

-- The memory holds the frames, and there is room for the right subtree of each.
abbrev AreFrames : (ℕ → Option TreeNode) → (size : ℕ) → List Frame → Type 0
AreFrames nodes size [] = Unit {0}
AreFrames nodes size (f ∷ fs) =
    Holds nodes (whole f) × (length fs + height f.r ≤ size) × AreFrames nodes size fs

abbrev at_of : Frame → ℕ
at_of f = f.at

append_assoc : {A : Type 0} (xs ys zs : List A) → (xs ++ ys) ++ zs ≡ xs ++ (ys ++ zs)
append_assoc [] ys zs = refl
append_assoc (x ∷ xs) ys zs = ap (◌∷◌ x) (append_assoc xs ys zs)

length-map : (fs : List Frame) → length (map at_of fs) ≡ length fs
length-map [] = refl
length-map (f ∷ fs) = ap suc (length-map fs)

foreach_loop-visit :
    (fuel : ℕ) (t : Shape) (fs : List Frame) (rsk : RStack) (tr : Tree)
    → IsStack rsk
    → elements rsk ≡ map at_of fs
    → Holds tr.nodes t
    → AreFrames tr.nodes rsk.size fs
    → length fs + height t ≤ rsk.size
    → 2 * size_of t + rounds fs < fuel
    → foreach_loop fuel (addr_of t) rsk tr ≡ done (in_order t ++ pending fs) tr
unfolding foreach_loop in_order pending size_of rounds
foreach_loop-visit zero t fs rsk tr v e h frames room enough = elim enough [ ]
foreach_loop-visit (suc fuel) leaf [] rsk tr v e h frames room enough =
    rw (is_empty_rstack_lem rsk, e) refl
foreach_loop-visit (suc fuel) leaf (f ∷ fs) rsk tr v e h frames room enough =
    let popped = pop_rstack-cons rsk f.at (map at_of fs) v e in
    let full : is_empty_rstack rsk ≡ false = rw (is_empty_rstack_lem rsk, e) (ground arith) in
    let visit =
      foreach_loop-visit fuel f.r fs (pop_rstack rsk).0 tr popped.stack popped.list frames.0.3
        (subst (λ s. AreFrames tr.nodes s fs) (sym popped.size) frames.2)
        (omega (arith, popped.size, frames.1)) (omega arith) in
    rw (
      full,
      popped.answer,
      load-at f.at tr (cell f.key f.value f.color f.l f.r) frames.0.0 frames.0.1,
      right_of-at f.at tr (cell f.key f.value f.color f.l f.r) frames.0.0 frames.0.1,
      visit,
    )
foreach_loop-visit (suc fuel) (node a k v c l r) fs rsk tr is e h frames room enough =
    let f : Frame = record { at = a; key = k; value = v; color = c; l = l; r = r } in
    let set : (a == 0) ≡ false = ground arith in
    let pushed = push_rstack-room rsk a (map at_of fs) is e (omega (arith, length-map fs)) in
    let visit =
      foreach_loop-visit fuel l (f ∷ fs) (push_rstack rsk a).0 tr pushed.stack pushed.list h.2
        (subst (λ s. AreFrames tr.nodes s (f ∷ fs)) (sym pushed.size) (h, omega arith, frames))
        (omega (arith, pushed.size)) (omega arith) in
    rw (
      set,
      left_of-at a tr (cell k v c l r) h.0 h.1,
      visit,
      append_assoc (in_order l) ((k, v) ∷ in_order r) (pending fs),
    )

append_nil : {A : Type 0} (xs : List A) → xs ++ [] ≡ xs
append_nil [] = refl
append_nil (x ∷ xs) = ap (◌∷◌ x) (append_nil xs)

to_int32-small : (total : ℕ) → total < 2 ^ 31 → to_int32 total ≡ pos total
to_int32-small total h =
    let same : total % 2 ^ 32 ≡ total = omega arith in rw (same, lt→ltb total (2 ^ 31) h) refl

new_rstack-room :
    (slots : List ℕ) (size : ℕ)
    → 0 < size
    → new_rstack true (some slots) 8 (pos size)
      ≡ some (record { n = slots; size = size; depth = 0 })
unfolding new_rstack
new_rstack-room slots size h = ground arith

-- FOREACH_TREE, if both mallocs of its stack succeed and the second gives a slot for each entry,
-- on a tree that is no higher than its `total`, ends, changes nothing, and gives the body the entry
-- of each node once, in the order of the search tree. Twice the number of nodes bounds the rounds.
pub foreach_tree-in_order :
    (fuel : ℕ) (slots : List ℕ) (tr : Tree) (t : Shape)
    → IsTree tr t
    → tr.total ≤ length slots
    → height t ≤ tr.total
    → tr.total < 2 ^ 31
    → 2 * size_of t < fuel
    → foreach_tree fuel true (some slots) tr ≡ done (in_order t) tr
unfolding foreach_tree in_order pending rounds
foreach_tree-in_order fuel slots tr leaf is_tree stack room small enough = rw is_tree.leads refl
foreach_tree-in_order fuel slots tr (node a k v c l r) is_tree stack room small enough =
    let t = node a k v c l r in
    let rsk : RStack = record { n = slots; size = tr.total; depth = 0 } in
    let set : (tr.root == 0) ≡ false = ground (arith, is_tree.leads, is_tree.held.0) in
    let new : new_rstack true (some slots) 8 (to_int32 tr.total) ≡ some rsk =
      ap (new_rstack true (some slots) 8) (to_int32-small tr.total small)
      ∙ new_rstack-room slots tr.total (omega arith) in
    rw (set, new)
      (ap (λ p. foreach_loop fuel p rsk tr) is_tree.leads
        ∙ foreach_loop-visit fuel t [] rsk tr (record { slots = stack; within = omega arith })
            (elements_empty rsk refl) is_tree.held tt (omega arith) (omega arith)
        ∙ ap (λ es. done es tr) (append_nil (in_order t)))
