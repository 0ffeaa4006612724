-- ===== src/Map/Tree/Place.antt =====
-- Where treePut of src/map/tree.c writes, and the shape that its write gives.
use redis_pool.Base.{
  ℕ, zero, suc, ◌<◌, ◌≡◌, ◌≢◌, refl, ap, ◌∙◌, inl, inr, Bool, true, false, Option, some, arith, ltb,
  Bool-cases, ◌==◌, if◌then◌else◌,
}
use redis_pool.Map.Tree.Store.{TreeNode, red, Tree, done, load, update}
use redis_pool.Map.Tree.Ops.{Place, found, below, new_tree_node, place_loop}
use redis_pool.Map.Tree.Shape.{
  Shape, leaf, node, addr_of, cell, Holds, Holds-update, has, Distinct, height, lookup, insert,
  contains,
}

-- Where the search for a place ends, by the shape alone.
unfoldable pub place_at : (key : ℕ) → Shape → (parent : ℕ) (is_left : Bool) → Place
place_at key leaf parent is_left = below parent is_left
place_at key (node a k v c l r) parent is_left =
    if ltb key k
    then place_at key l a true
    else if ltb k key
    then place_at key r a false
    else found a

pub place_loop-place_at :
    (fuel key : ℕ) (tr : Tree) (t : Shape) (parent : ℕ) (is_left : Bool)
    → height t < fuel
    → Holds tr.nodes t
    → place_loop fuel key (addr_of t) parent is_left tr ≡ done (place_at key t parent is_left) tr
unfolding place_loop place_at load
place_loop-place_at zero key tr t parent is_left h held = elim h [ ]
place_loop-place_at (suc fuel) key tr leaf parent is_left h held = refl
place_loop-place_at (suc fuel) key tr (node a k v c l r) parent is_left h held =
    ground
      (arith, place_loop-place_at fuel key tr l a true, place_loop-place_at fuel key tr r a false)

abbrev pub with_link : Bool → ℕ → TreeNode → TreeNode
with_link true tmp n = record n { left = tmp }
with_link false tmp n = record n { right = tmp }

abbrev pub red_node : (key value : ℕ) → TreeNode
red_node key value = record (new_tree_node key value) { color = red }

module _ (nodes : ℕ → Option TreeNode) (key value tmp : ℕ) where
  -- The memory after the writes at a place holds the shape after the insertion.
  abbrev pub Puts : Shape → Place → Type 0
  Puts t (found q) =
      (n : TreeNode) × (nodes q ≡ some n)
      × (has q t ≡ true)
      × (contains key t ≡ true)
      × (n.value ≡ lookup key t)
      × Holds (update nodes q (some (record n { value = value }))) (insert key value tmp t)
  Puts t (below q side) =
      (n : TreeNode) × (nodes q ≡ some n)
      × (has q t ≡ true)
      × (contains key t ≡ false)
      × Holds
          (update (update nodes q (some (with_link side tmp n))) tmp (some (red_node key value)))
          (insert key value tmp t)

  pub addr_of-insert : (t : Shape) → t ≢ leaf → addr_of (insert key value tmp t) ≡ addr_of t
  unfolding insert
  addr_of-insert leaf h = absurd (h refl)
  addr_of-insert (node a k v c l r) h = ground arith

  module _ (a k v : ℕ) (c : Bool) (l r : Shape) (held : Holds nodes (node a k v c l r))
      (distinct : Distinct (node a k v c l r)) (unused : has tmp (node a k v c l r) ≡ false) where
    -- Two writes elsewhere leave the node at the root.
    root_kept :
        (q : ℕ) (n m : Option TreeNode)
        → (a == q) ≡ false
        → update (update nodes q n) tmp m a ≡ some (cell k v c l r)
    root_kept q n m e = let ne : (a == tmp) ≡ false = ground arith in rw (ne, e) held.1

    new_left : (l' : Shape) → addr_of l' ≡ addr_of l → cell k v c l r ≡ cell k v c l' r
    new_left l' e = cc

    new_right : (r' : Shape) → addr_of r' ≡ addr_of r → cell k v c l r ≡ cell k v c l r'
    new_right r' e = cc

    root_apart : (q : ℕ) (s : Shape) → has a s ≡ false → has q s ≡ true → (a == q) ≡ false
    root_apart q s e f = ground (arith, ap (λ p. has p s))

    Puts-left :
        (place : Place) → l ≢ leaf → ltb key k ≡ true → Puts l place → Puts (node a k v c l r) place
    unfolding insert contains lookup
    Puts-left (found q) ne less (n, at, in_l, there, old, rest) = (
      n,
      at,
      ground arith,
      ground arith,
      ground arith,
      rw less (
        held.0,
        ground (arith, addr_of-insert l ne),
        rest,
        Holds-update nodes q _ r (distinct.2 q in_l) held.3,
      ),
    )
    Puts-left (below q side) ne less (n, at, in_l, there, rest) = (
      n,
      at,
      ground arith,
      ground arith,
      rw less (
        held.0,
        root_kept q _ _ (root_apart q l distinct.0 in_l)
            ∙ ap some (new_left (insert key value tmp l) (addr_of-insert l ne)),
        rest,
        Holds-update _ tmp _ r (ground arith) (Holds-update nodes q _ r (distinct.2 q in_l) held.3),
      ),
    )

    -- The search goes right.
    abbrev Rightwards : Type 0
    Rightwards = (ltb key k ≡ false) × (ltb k key ≡ true)

    Puts-right :
        (place : Place) → r ≢ leaf → Rightwards → Puts r place → Puts (node a k v c l r) place
    unfolding insert contains lookup
    Puts-right (found q) ne way (n, at, in_r, there, old, rest) = (
      n,
      at,
      ground arith,
      ground arith,
      ground arith,
      rw (way.0, way.1)
          (
            held.0,
            ground (arith, addr_of-insert r ne),
            Holds-update nodes q _ l (ground (arith, distinct.2 q)) held.2,
            rest,
          ),
    )
    Puts-right (below q side) ne way (n, at, in_r, there, rest) = (
      n,
      at,
      ground arith,
      ground arith,
      rw (way.0, way.1)
          (
            held.0,
            root_kept q _ _ (root_apart q r distinct.1 in_r)
                ∙ ap some (new_right (insert key value tmp r) (addr_of-insert r ne)),
            Holds-update _ tmp _ l (ground arith)
                (Holds-update nodes q _ l (ground (arith, distinct.2 q)) held.2),
            rest,
          ),
    )

    Puts-here : (ltb key k ≡ false) × (ltb k key ≡ false) → Puts (node a k v c l r) (found a)
    unfolding insert contains lookup
    Puts-here same = (
      cell k v c l r,
      held.1,
      ground arith,
      ground arith,
      ground arith,
      rw (same.0, same.1)
          (
            held.0,
            ground arith,
            Holds-update nodes a _ l distinct.0 held.2,
            Holds-update nodes a _ r distinct.1 held.3,
          ),
    )

  Puts-leaf_left :
      (a k v : ℕ) (c : Bool) (r : Shape)
      → Holds nodes (node a k v c leaf r)
      → Distinct (node a k v c leaf r)
      → has tmp (node a k v c leaf r) ≡ false
      → 0 < tmp
      → ltb key k ≡ true
      → Puts (node a k v c leaf r) (below a true)
  unfolding insert contains
  Puts-leaf_left a k v c r held distinct unused pos less = (
    cell k v c leaf r,
    held.1,
    ground arith,
    ground arith,
    rw less (
      held.0,
      ground arith,
      (pos, ground arith, tt, tt),
      Holds-update _ tmp _ r (ground arith) (Holds-update nodes a _ r distinct.1 held.3),
    ),
  )

  Puts-leaf_right :
      (a k v : ℕ) (c : Bool) (l : Shape)
      → Holds nodes (node a k v c l leaf)
      → Distinct (node a k v c l leaf)
      → has tmp (node a k v c l leaf) ≡ false
      → 0 < tmp
      → (ltb key k ≡ false) × (ltb k key ≡ true)
      → Puts (node a k v c l leaf) (below a false)
  unfolding insert contains
  Puts-leaf_right a k v c l held distinct unused pos way = (
    cell k v c l leaf,
    held.1,
    ground arith,
    ground arith,
    rw (way.0, way.1)
        (
          held.0,
          ground arith,
          Holds-update _ tmp _ l (ground arith) (Holds-update nodes a _ l distinct.0 held.2),
          (pos, ground arith, tt, tt),
        ),
  )

  -- What holds of a son that is there.
  abbrev PutsBelow : Shape → Type 0
  PutsBelow t = t ≢ leaf → (parent : ℕ) (is_left : Bool) → Puts t (place_at key t parent is_left)

  left_case :
      (a k v : ℕ) (c : Bool) (l r : Shape)
      → Holds nodes (node a k v c l r)
      → Distinct (node a k v c l r)
      → has tmp (node a k v c l r) ≡ false
      → 0 < tmp
      → ltb key k ≡ true
      → PutsBelow l
      → Puts (node a k v c l r) (place_at key l a true)
  left_case a k v c leaf r held distinct unused pos less ih =
      unfold place_at in Puts-leaf_left a k v c r held distinct unused pos less
  left_case a k v c (node b j w d m n) r held distinct unused pos less ih =
      Puts-left a k v c (node b j w d m n) r held distinct unused _ (λ e. cc) less
        (ih (λ e. cc) a true)

  right_case :
      (a k v : ℕ) (c : Bool) (l r : Shape)
      → Holds nodes (node a k v c l r)
      → Distinct (node a k v c l r)
      → has tmp (node a k v c l r) ≡ false
      → 0 < tmp
      → (ltb key k ≡ false) × (ltb k key ≡ true)
      → PutsBelow r
      → Puts (node a k v c l r) (place_at key r a false)
  right_case a k v c l leaf held distinct unused pos way ih =
      unfold place_at in Puts-leaf_right a k v c l held distinct unused pos way
  right_case a k v c l (node b j w d m n) held distinct unused pos way ih =
      Puts-right a k v c l (node b j w d m n) held distinct unused _ (λ e. cc) way
        (ih (λ e. cc) a false)

  -- In a tree that is not empty, the writes at the place where the search ends insert the key.
  pub Puts-place_at :
      (t : Shape)
      → Holds nodes t
      → Distinct t
      → has tmp t ≡ false
      → 0 < tmp
      → t ≢ leaf
      → (parent : ℕ) (is_left : Bool) → Puts t (place_at key t parent is_left)
  unfolding place_at
  Puts-place_at leaf held distinct unused pos ne parent is_left = absurd (ne refl)
  Puts-place_at (node a k v c l r) held distinct unused pos ne parent is_left =
      let left = Puts-place_at l held.2 distinct.3 (ground arith) pos in
      let right = Puts-place_at r held.3 distinct.4 (ground arith) pos in
      elim (Bool-cases (ltb key k)) [
        | inl less ↦ rw less (left_case a k v c l r held distinct unused pos less left)
        | inr ge ↦ elim (Bool-cases (ltb k key)) [
          | inl more ↦
              rw (ge, more) (right_case a k v c l r held distinct unused pos (ge, more) right)
          | inr le ↦ rw (ge, le) (Puts-here a k v c l r held distinct unused (ge, le))
        ]
      ]
