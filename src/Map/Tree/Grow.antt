-- ===== src/Map/Tree/Grow.antt =====
-- Shapes with one more address: what insertion and the black root keep.
use redis_pool.Base.{
  ℕ, ◌<◌, ◌≡◌, ◌≢◌, refl, Bool, true, false, Option, some, arith, ltb, Bool-cases, inl, inr, ◌==◌,
  ==_iff,
}
use redis_pool.Map.Tree.Store.{TreeNode, black, update}
use redis_pool.Map.Tree.Shape.{
  Shape, leaf, node, addr_of, cell, Holds, Holds-update, has, Distinct, insert, blacken,
}

-- Insertion brings in no address but the new one.
has-insert :
    (p key value tmp : ℕ) (t : Shape)
    → has p t ≡ false
    → (p == tmp) ≡ false
    → has p (insert key value tmp t) ≡ false
unfolding insert
has-insert p key value tmp leaf h e = ground arith
has-insert p key value tmp (node a k v c l r) h e =
    ground (arith, has-insert p key value tmp l, has-insert p key value tmp r)

apart_left :
    (key value tmp p : ℕ) (l r : Shape)
    → ((p : ℕ) → has p l ≡ true → has p r ≡ false)
    → has tmp r ≡ false
    → has p (insert key value tmp l) ≡ true
    → has p r ≡ false
apart_left key value tmp p l r apart unused h = elim (Bool-cases (p == tmp)) [
  | inl e ↦ rw ((==_iff p tmp).0 e) unused
  | inr e ↦ ground (arith, apart p, has-insert p key value tmp l)
]

apart_right :
    (key value tmp p : ℕ) (l r : Shape)
    → ((p : ℕ) → has p l ≡ true → has p r ≡ false)
    → has tmp l ≡ false
    → has p l ≡ true
    → has p (insert key value tmp r) ≡ false
apart_right key value tmp p l r apart unused h =
    has-insert p key value tmp r (apart p h) (ground arith)

pub insert-Distinct :
    (key value tmp : ℕ) (t : Shape)
    → has tmp t ≡ false
    → Distinct t
    → Distinct (insert key value tmp t)
unfolding insert
insert-Distinct key value tmp leaf unused d = (refl, refl, λ p h. cc, tt, tt)
insert-Distinct key value tmp (node a k v c l r) unused d = elim (Bool-cases (ltb key k)) [
  | inl less ↦ rw less (
    has-insert a key value tmp l d.0 (ground arith),
    d.1,
    λ p. apart_left key value tmp p l r d.2 (ground arith),
    insert-Distinct key value tmp l (ground arith) d.3,
    d.4,
  )
  | inr ge ↦ elim (Bool-cases (ltb k key)) [
    | inl more ↦
        rw (ge, more)
          (
            d.0,
            has-insert a key value tmp r d.1 (ground arith),
            λ p. apart_right key value tmp p l r d.2 (ground arith),
            d.3,
            insert-Distinct key value tmp r (ground arith) d.4,
          )
    | inr le ↦ rw (ge, le) d
  ]
]

pub blacken-Distinct : (t : Shape) → Distinct t → Distinct (blacken t)
blacken-Distinct leaf d = tt
blacken-Distinct (node a k v c l r) d = d

abbrev pub painted : TreeNode → Bool → TreeNode
painted n c = record n { color = c }

-- The node at the root of a shape that is not empty.
abbrev pub root_node : Shape → TreeNode
root_node leaf = cell 0 0 black leaf leaf
root_node (node a k v c l r) = cell k v c l r

pub Holds-root :
    (nodes : ℕ → Option TreeNode) (t : Shape)
    → t ≢ leaf
    → Holds nodes t
    → (0 < addr_of t) × (nodes (addr_of t) ≡ some (root_node t))
Holds-root nodes leaf ne h = absurd (ne refl)
Holds-root nodes (node a k v c l r) ne h = (h.0, h.1)

pub Holds-blacken :
    (nodes : ℕ → Option TreeNode) (t : Shape)
    → t ≢ leaf
    → Distinct t
    → Holds nodes t
    → Holds (update nodes (addr_of t) (some (painted (root_node t) black))) (blacken t)
Holds-blacken nodes leaf ne d h = absurd (ne refl)
Holds-blacken nodes (node a k v c l r) ne d h =
    (h.0, ground arith, Holds-update nodes a _ l d.0 h.2, Holds-update nodes a _ r d.1 h.3)

pub insert-ne-leaf : (key value tmp : ℕ) (t : Shape) → insert key value tmp t ≢ leaf
unfolding insert
insert-ne-leaf key value tmp leaf e = cc
insert-ne-leaf key value tmp (node a k v c l r) e = ground arith

pub addr_of-blacken : (t : Shape) → addr_of (blacken t) ≡ addr_of t
addr_of-blacken leaf = refl
addr_of-blacken (node a k v c l r) = refl

-- An address of a shape in memory is not null.
pub has-pos :
    (nodes : ℕ → Option TreeNode) (p : ℕ) (t : Shape) → Holds nodes t → has p t ≡ true → 0 < p
has-pos nodes p leaf h e = cc
has-pos nodes p (node a k v c l r) h e = elim (Bool-cases (p == a)) [
  | inl here ↦ rw ((==_iff p a).0 here) h.0
  | inr away ↦ elim (Bool-cases (has p l)) [
    | inl left ↦ has-pos nodes p l h.2 left
    | inr right ↦ has-pos nodes p r h.3 (ground arith)
  ]
]

pub ne_of_has : (p q : ℕ) (t : Shape) → has p t ≡ false → has q t ≡ true → (p == q) ≡ false
ne_of_has p q t out inside = elim (Bool-cases (p == q)) [
  | inl e ↦ let away : has q t ≡ false = rw (← (==_iff p q).0 e) out in cc
  | inr e ↦ e
]
