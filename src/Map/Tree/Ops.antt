-- ===== src/Map/Tree/Ops.antt =====
-- The operations of src/map/tree.c on a tree that is not null. malloc's answer is an argument: the
-- address of the new node, 0 if there is none. The loops run on fuel.
use redis_pool.Base.{
  ℕ, zero, suc, ◌+◌, ◌-◌, ◌%◌, ◌^◌, Bool, true, false, not, ◌&&◌, none, [], ◌∷◌, ltb, leb, ◌==◌,
  if◌then◌else◌,
}
use redis_pool.Map.Tree.Store.{
  TreeNode, black, Tree, M, done, out_of_fuel, pure, ◌>>=◌, ◌>>◌, update, load, store, set_left,
  set_right, set_parent, set_root, get_root, left_of, right_of, parent_of, is_black_color,
}
use redis_pool.Map.Tree.Fix.{fix_after_insert, fix_after_remove}

pub data Status : Type 0 where
  s_err s_ok : Status

unfoldable pub new_tree : (max : ℕ) → Tree
new_tree max = record {
  max = max;
  total = 0;
  valid = true;
  root = 0;
  nodes = λ _. none;
  released = [];
}

abbrev pub new_tree_node : (key value : ℕ) → TreeNode
new_tree_node key value = record {
  left = 0;
  right = 0;
  parent = 0;
  color = black;
  key = key;
  value = value;
}

-- freeMapValue: what it frees of the value is not in this memory.
unfoldable pub free_map_value : ℕ → M (Unit {0})
free_map_value v t = done tt (if v == 0 then t else record t { released = v ∷ t.released })

unfoldable pub free_node : ℕ → M (Unit {0})
free_node p t = done tt (record t { nodes = update t.nodes p none })

-- The loop of getTreeNode.
unfoldable pub find_loop : (fuel key tn : ℕ) → M ℕ
find_loop zero key tn = λ _. out_of_fuel
find_loop (suc fuel) key tn = if tn == 0 then pure 0 else do
  n ← load tn
  if ltb key n.key
      then find_loop fuel key n.left
      else if ltb n.key key
      then find_loop fuel key n.right
      else pure tn

unfoldable pub get_tree_node : (fuel key : ℕ) → M ℕ
get_tree_node fuel key = do r ← get_root; find_loop fuel key r

unfoldable pub value_of : (tn : ℕ) → M ℕ
value_of tn = if tn == 0 then pure 0 else do n ← load tn; pure n.value

unfoldable pub tree_get : (fuel key : ℕ) → M ℕ
tree_get fuel key = do tn ← get_tree_node fuel key; value_of tn

-- Where the loop of treePut ends: at the node with the key, or below `parent` on one side.
pub data Place : Type 0 where
  found : ℕ → Place
  below : (parent : ℕ) (is_left : Bool) → Place

unfoldable pub place_loop : (fuel key tn parent : ℕ) (is_left : Bool) → M Place
place_loop zero key tn parent is_left = λ _. out_of_fuel
place_loop (suc fuel) key tn parent is_left = if tn == 0 then pure (below parent is_left) else do
  n ← load tn
  if ltb key n.key
      then place_loop fuel key n.left tn true
      else if ltb n.key key
      then place_loop fuel key n.right tn false
      else pure (found tn)

-- The node takes the new value.
unfoldable pub replace_value : (tn value : ℕ) → M Status
replace_value tn value = do
  n ← load tn
  free_map_value n.value
  store tn (record n { value = value })
  pure s_ok

unfoldable pub link : (parent : ℕ) (is_left : Bool) (tmp : ℕ) → M (Unit {0})
link parent is_left tmp =
    if parent == 0
    then set_root tmp
    else if is_left
    then set_left parent tmp
    else set_right parent tmp

abbrev pub count_up : M (Unit {0})
count_up t = done tt (record t { total = (t.total + 1) % 2 ^ 64 })

abbrev pub count_down : M (Unit {0})
count_down t = done tt (record t { total = (t.total + 2 ^ 64 - 1) % 2 ^ 64 })

unfoldable pub add_node : (fuel tmp key value parent : ℕ) (is_left : Bool) → M Status
add_node fuel tmp key value parent is_left = if tmp == 0 then pure s_err else do
  store tmp (new_tree_node key value)
  link parent is_left tmp
  count_up
  fix_after_insert fuel tmp
  pure s_ok

unfoldable pub put_at : (fuel tmp key value : ℕ) → Place → M Status
put_at fuel tmp key value (found tn) = replace_value tn value
put_at fuel tmp key value (below parent is_left) = add_node fuel tmp key value parent is_left

abbrev pub is_full : Tree → Bool
is_full t = ltb 0 t.max && leb t.max t.total

-- `tmp` is malloc's answer.
unfoldable pub tree_put : (fuel tmp key value : ℕ) → M Status
tree_put fuel tmp key value t =
    if is_full t
    then done s_err t
    else (do place ← place_loop fuel key t.root 0 false; put_at fuel tmp key value place) t

unfoldable pub least_loop : (fuel tmp : ℕ) → M ℕ
least_loop zero tmp = λ _. out_of_fuel
least_loop (suc fuel) tmp = do l ← left_of tmp; if l == 0 then pure tmp else least_loop fuel l

unfoldable pub successor : (fuel tn : ℕ) → M ℕ
successor fuel tn = do
  r ← right_of tn
  if (tn == 0) then pure 0 else if r == 0 then pure 0 else least_loop fuel r

-- A node with two sons swaps values with its successor, and takes its key: the successor goes.
unfoldable pub take_successor : (fuel current : ℕ) → M ℕ
take_successor fuel current = do
  search ← successor fuel current
  s ← load search
  c ← load current
  store current (record c { key = s.key; value = s.value })
  s' ← load search
  store search (record s' { value = c.value })
  pure search

unfoldable pub two_sons : ℕ → M Bool
two_sons p = do l ← left_of p; r ← right_of p; pure (not (l == 0) && not (r == 0))

-- `replace`, the only son of `current`, takes its place.
unfoldable pub splice : (fuel current replace : ℕ) → M (Unit {0})
splice fuel current replace = do
  parent ← parent_of current
  set_parent replace parent
  l ← left_of parent
  (if parent == 0
      then set_root replace
      else if l == current
      then set_left parent replace
      else set_right parent replace)
  b ← is_black_color current
  if b then fix_after_remove fuel replace else pure tt

unfoldable pub detach_leaf : (fuel current : ℕ) → M (Unit {0})
detach_leaf fuel current = do
  b ← is_black_color current
  (if b then fix_after_remove fuel current else pure tt)
  parent ← parent_of current
  l ← left_of parent
  if parent == 0 then pure tt else if l == current then set_left parent 0 else set_right parent 0

-- The test in the middle is on the parent of `replace`, as in the source.
unfoldable pub unlink : (fuel current replace : ℕ) → M (Unit {0})
unlink fuel current replace =
    if not (replace == 0)
    then splice fuel current replace
    else do above ← parent_of replace; if above == 0 then set_root 0 else detach_leaf fuel current

-- The node gives up its value and is freed.
unfoldable pub drop_node : ℕ → M ℕ
drop_node current = do
  n ← load current
  store current (record n { parent = 0; left = 0; right = 0; value = 0 })
  free_node current
  count_down
  pure n.value

unfoldable pub remove_node : (fuel current : ℕ) → M ℕ
remove_node fuel current = do
  both ← two_sons current
  gone ← (if both then take_successor fuel current else pure current)
  l ← left_of gone
  r ← right_of gone
  unlink fuel gone (if l == 0 then r else l)
  drop_node gone

unfoldable pub tree_remove : (fuel key : ℕ) → M ℕ
tree_remove fuel key = do
  root ← get_root
  if root == 0 then pure 0 else do
    current ← get_tree_node fuel key
    if current == 0 then pure 0 else remove_node fuel current

unfoldable pub tree_remove_and_free : (fuel key : ℕ) → M (Unit {0})
tree_remove_and_free fuel key = do v ← tree_remove fuel key; free_map_value v

-- freeTreeNode with DELETE_ALL. The links are reset before the node is freed, which leaves no trace.
unfoldable pub free_tree_node : (fuel tn : ℕ) → M (Unit {0})
free_tree_node zero tn = λ _. out_of_fuel
free_tree_node (suc fuel) tn = if tn == 0 then pure tt else do
  n ← load tn
  free_tree_node fuel n.left
  free_tree_node fuel n.right
  free_map_value n.value
  free_node tn

unfoldable pub free_tree : (fuel : ℕ) → M (Unit {0})
free_tree fuel = do
  r ← get_root
  free_tree_node fuel r
  λ t. done tt (record t { root = 0; valid = false; total = 0 })
