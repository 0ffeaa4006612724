-- ===== src/Map/Tree/Store.antt =====
-- The nodes of src/map/tree.h in memory, and the accessors at the end of src/map/tree.c. A null
-- pointer is 0. A key is an int, given by its distance from INT_MIN, which keeps the order.
use redis_pool.Base.{ℕ, Bool, true, false, not, Option, none, some, List, ◌==◌, if◌then◌else◌}

pub record TreeNode : Type 0 where
  pub left : ℕ
  pub right : ℕ
  pub parent : ℕ
  pub color : Bool
  pub key : ℕ
  pub value : ℕ

abbrev pub red : Bool
red = true

abbrev pub black : Bool
black = false

-- struct tree; the destructor of the values, `freeFuncName`, is not among the fields, and
-- `released` lists the values handed to freeMapValue, last first.
pub record Tree : Type 0 where
  pub max : ℕ
  pub total : ℕ
  pub valid : Bool
  pub root : ℕ
  pub nodes : ℕ → Option TreeNode
  pub released : List ℕ

-- `fault` is the use of a pointer to no node, `out_of_fuel` a loop that is not followed to its end.
pub data Run (A : Type 0) : Type 0 where
  done : A → Tree → Run A
  fault : Run A
  out_of_fuel : Run A

abbrev pub M : Type 0 → Type 0
M A = Tree → Run A

abbrev pub pure : {A : Type 0} → A → M A
pure a t = done a t

abbrev pub and_then : {A B : Type 0} → Run A → (A → M B) → Run B
and_then (done a t) f = f a t
and_then fault f = fault
and_then out_of_fuel f = out_of_fuel

infixl 5 ◌>>=◌ ◌>>◌
abbrev pub ◌>>=◌ : {A B : Type 0} → M A → (A → M B) → M B
m >>= f = λ t. and_then (m t) f

abbrev pub ◌>>◌ : {B : Type 0} → M (Unit {0}) → M B → M B
m >> k = m >>= λ _. k

abbrev pub update : (ℕ → Option TreeNode) → ℕ → Option TreeNode → ℕ → Option TreeNode
update nodes p n q = if q == p then n else nodes q

-- `*p`
unfoldable pub load : ℕ → M TreeNode
load p t = elim (t.nodes p) [ none ↦ fault | some n ↦ done n t ]

unfoldable pub store : ℕ → TreeNode → M (Unit {0})
store p n t = done tt (record t { nodes = update t.nodes p (some n) })

unfoldable pub set_left : (p q : ℕ) → M (Unit {0})
unfolding load store
set_left p q = do n ← load p; store p (record n { left = q })

unfoldable pub set_right : (p q : ℕ) → M (Unit {0})
unfolding load store
set_right p q = do n ← load p; store p (record n { right = q })

unfoldable pub set_parent : (p q : ℕ) → M (Unit {0})
unfolding load store
set_parent p q = do n ← load p; store p (record n { parent = q })

unfoldable pub set_root : ℕ → M (Unit {0})
set_root p t = done tt (record t { root = p })

abbrev pub get_root : M ℕ
get_root t = done t.root t

unfoldable pub left_of : ℕ → M ℕ
unfolding load
left_of p = if p == 0 then pure 0 else do n ← load p; pure n.left

unfoldable pub right_of : ℕ → M ℕ
unfolding load
right_of p = if p == 0 then pure 0 else do n ← load p; pure n.right

unfoldable pub parent_of : ℕ → M ℕ
unfolding load
parent_of p = if p == 0 then pure 0 else do n ← load p; pure n.parent

unfoldable pub get_color : ℕ → M Bool
unfolding load
get_color p = if p == 0 then pure black else do n ← load p; pure n.color

unfoldable pub set_color : ℕ → Bool → M (Unit {0})
unfolding load store
set_color p c = if p == 0 then pure tt else do n ← load p; store p (record n { color = c })

unfoldable pub is_red_color : ℕ → M Bool
unfolding get_color
is_red_color p = get_color p

unfoldable pub is_black_color : ℕ → M Bool
unfolding get_color
is_black_color p = do c ← get_color p; pure (not c)

unfoldable pub set_red_color : ℕ → M (Unit {0})
unfolding set_color
set_red_color p = set_color p red

unfoldable pub set_black_color : ℕ → M (Unit {0})
unfolding set_color
set_black_color p = set_color p black
