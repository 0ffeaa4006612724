-- ===== src/Map/Tree/Shape.antt =====
-- The tree that the nodes in memory form, and what search and insertion mean for it.
use redis_pool.Base.{
  ℕ, suc, ◌<◌, ◌≡◌, refl, Bool, true, false, ◌||◌, Option, some, arith, ltb, ◌==◌, if◌then◌else◌,
}
use Prim.Native.Nat.{max}
use redis_pool.Map.Tree.Store.{TreeNode, Tree, red, black, update}

pub data Shape : Type 0 where
  leaf : Shape
  node : (addr key value : ℕ) (color : Bool) → Shape → Shape → Shape

abbrev pub addr_of : Shape → ℕ
addr_of leaf = 0
addr_of (node a k v c l r) = a

-- The node that stands at the root. No parent is ever recorded.
abbrev pub cell : (key value : ℕ) (color : Bool) → Shape → Shape → TreeNode
cell k v c l r = record {
  left = addr_of l;
  right = addr_of r;
  parent = 0;
  color = c;
  key = k;
  value = v;
}

-- The memory holds exactly the nodes of the shape at its addresses.
abbrev pub Holds : (ℕ → Option TreeNode) → Shape → Type 0
Holds nodes leaf = Unit {0}
Holds nodes (node a k v c l r) =
    (0 < a) × (nodes a ≡ some (cell k v c l r)) × Holds nodes l × Holds nodes r

abbrev pub has : ℕ → Shape → Bool
has p leaf = false
has p (node a k v c l r) = (p == a) || (has p l || has p r)

-- No address stands twice.
abbrev pub Distinct : Shape → Type 0
Distinct leaf = Unit {0}
Distinct (node a k v c l r) =
    (has a l ≡ false)
    × (has a r ≡ false)
    × ((p : ℕ) → has p l ≡ true → has p r ≡ false)
    × Distinct l
    × Distinct r

abbrev pub height : Shape → ℕ
height leaf = 0
height (node a k v c l r) = suc (max (height l) (height r))

-- The value of a key, 0 if the key is not there.
unfoldable pub lookup : ℕ → Shape → ℕ
lookup key leaf = 0
lookup key (node a k v c l r) =
    if ltb key k then lookup key l else if ltb k key then lookup key r else v

-- Insertion into a search tree, with the address of the new node, which is red.
unfoldable pub insert : (key value fresh : ℕ) → Shape → Shape
insert key value fresh leaf = node fresh key value red leaf leaf
insert key value fresh (node a k v c l r) =
    if ltb key k
    then node a k v c (insert key value fresh l) r
    else if ltb k key
    then node a k v c l (insert key value fresh r)
    else node a key value c l r

unfoldable pub contains : ℕ → Shape → Bool
contains key leaf = false
contains key (node a k v c l r) =
    if ltb key k then contains key l else if ltb k key then contains key r else true

abbrev pub blacken : Shape → Shape
blacken leaf = leaf
blacken (node a k v c l r) = node a k v black l r

-- A lookup after an insertion finds the new value at its key, and the old one at any other key.
pub lookup-insert :
    (key value fresh other : ℕ) (t : Shape)
    → lookup other (insert key value fresh t) ≡ (if other == key then value else lookup other t)
unfolding lookup insert
lookup-insert key value fresh other leaf = ground arith
lookup-insert key value fresh other (node a k v c l r) =
    ground (arith, lookup-insert key value fresh other l, lookup-insert key value fresh other r)

pub lookup-blacken : (key : ℕ) (t : Shape) → lookup key (blacken t) ≡ lookup key t
unfolding lookup
lookup-blacken key leaf = refl
lookup-blacken key (node a k v c l r) = refl

-- A write to an address that the shape does not have leaves the shape.
pub Holds-update :
    (nodes : ℕ → Option TreeNode) (p : ℕ) (n : Option TreeNode) (t : Shape)
    → has p t ≡ false
    → Holds nodes t
    → Holds (update nodes p n) t
Holds-update nodes p n leaf e h = tt
Holds-update nodes p n (node a k v c l r) e (pos, at, left, right) = (
  pos,
  ground arith,
  Holds-update nodes p n l (ground arith) left,
  Holds-update nodes p n r (ground arith) right,
)

-- The tree record leads to the shape, and the memory holds it.
pub record IsTree (tr : Tree) (t : Shape) : Type 0 where
  pub leads : tr.root ≡ addr_of t
  pub held : Holds tr.nodes t
  pub distinct : Distinct t
