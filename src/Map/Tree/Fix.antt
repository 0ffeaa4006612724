-- ===== src/Map/Tree/Fix.antt =====
-- The rotations of src/map/tree.c and the repairs after an insertion and after a removal. The
-- callers pass a tree that is not null. A repair loops on fuel.
use redis_pool.Base.{ℕ, zero, suc, Bool, not, ◌&&◌, ◌==◌, if◌then◌else◌}
use redis_pool.Map.Tree.Store.{
  M, out_of_fuel, pure, ◌>>=◌, ◌>>◌, set_left, set_right, set_parent, set_root, get_root, left_of,
  right_of, parent_of, get_color, set_color, is_red_color, is_black_color, set_red_color,
  set_black_color,
}

-- `if (p) p->parent = q`
adopt : (p q : ℕ) → M (Unit {0})
adopt p q = if p == 0 then pure tt else set_parent p q

-- The link of `parent` to `tn`, or the root, is made to lead to `son`.
relink : (parent tn son : ℕ) → M (Unit {0})
relink parent tn son =
    if parent == 0
    then set_root son
    else do l ← left_of tn; if l == tn then set_left parent son else set_right parent son

pub left_rotate : (tn : ℕ) → M (Unit {0})
left_rotate tn = if tn == 0 then pure tt else do
  son ← right_of tn
  parent ← parent_of tn
  inner ← left_of son
  adopt inner tn
  set_right tn inner
  set_parent son parent
  set_parent tn son
  relink parent tn son
  set_left son tn

pub right_rotate : (tn : ℕ) → M (Unit {0})
right_rotate tn = if tn == 0 then pure tt else do
  son ← left_of tn
  parent ← parent_of tn
  inner ← right_of son
  adopt inner tn
  set_left tn inner
  set_parent son parent
  set_parent tn son
  relink parent tn son
  set_right son tn

-- The parent and the uncle of `tn` are red.
recolor : (parent uncle grand : ℕ) → M ℕ
recolor parent uncle grand = do
  set_black_color parent
  set_black_color uncle
  set_red_color grand
  pure grand

-- A round of the loop after an insertion, where the parent of `tn` is the left son of `grand`: the
-- next `tn`.
insert_left : (tn grand : ℕ) → M ℕ
insert_left tn grand = do
  uncle ← right_of grand
  r ← is_red_color uncle
  parent ← parent_of tn
  if r then recolor parent uncle grand else do
    inner ← right_of parent
    (tn', grand') ←
        (if inner == tn
          then (do
            left_rotate parent
            above ← parent_of parent
            g ← parent_of above
            pure (parent, g))
          else pure (tn, grand))
    parent' ← parent_of tn'
    set_black_color parent'
    set_red_color grand'
    right_rotate grand'
    pure tn'

insert_right : (tn grand : ℕ) → M ℕ
insert_right tn grand = do
  uncle ← left_of grand
  r ← is_red_color uncle
  parent ← parent_of tn
  if r then recolor parent uncle grand else do
    inner ← left_of parent
    (tn', grand') ←
        (if inner == tn
          then (do
            right_rotate parent
            above ← parent_of parent
            g ← parent_of above
            pure (parent, g))
          else pure (tn, grand))
    parent' ← parent_of tn'
    set_black_color parent'
    set_red_color grand'
    left_rotate grand'
    pure tn'

pub insert_round : (tn parent : ℕ) → M ℕ
insert_round tn parent = do
  grand ← parent_of parent
  l ← left_of grand
  if parent == l then insert_left tn grand else insert_right tn grand

unfoldable pub insert_loop : (fuel tn : ℕ) → M (Unit {0})
insert_loop zero tn = λ _. out_of_fuel
insert_loop (suc fuel) tn = do
  parent ← parent_of tn
  r ← is_red_color parent
  if not (tn == 0) && (not (parent == 0) && r)
      then (do next ← insert_round tn parent; insert_loop fuel next)
      else pure tt

unfoldable pub fix_after_insert : (fuel tn : ℕ) → M (Unit {0})
fix_after_insert fuel tn =
    if tn == 0
    then pure tt
    else do set_red_color tn; insert_loop fuel tn; r ← get_root; set_black_color r

-- The sibling where its parent is the father of both: a red one is rotated away first.
left_sibling : (tn : ℕ) → M ℕ
left_sibling tn = do
  parent ← parent_of tn
  sib ← right_of parent
  r ← is_red_color sib
  if r
      then (do
        set_black_color sib
        set_red_color parent
        left_rotate parent
        parent' ← parent_of tn
        right_of parent')
      else pure sib

right_sibling : (tn : ℕ) → M ℕ
right_sibling tn = do
  parent ← parent_of tn
  sib ← left_of parent
  r ← is_red_color sib
  if r
      then (do
        set_black_color sib
        set_red_color parent
        right_rotate parent
        parent' ← parent_of tn
        left_of parent')
      else pure sib

-- The sibling takes the colour of the parent, and the parent is rotated down to `tn`.
borrow_left : (tn sib : ℕ) → M ℕ
borrow_left tn sib = do
  far ← right_of sib
  far_black ← is_black_color far
  sib' ←
      (if far_black
        then (do
          set_red_color sib
          near ← left_of sib
          set_black_color near
          right_rotate sib
          parent ← parent_of tn
          right_of parent)
        else pure sib)
  parent ← parent_of tn
  c ← get_color parent
  set_color sib' c
  set_black_color parent
  far' ← right_of sib'
  set_black_color far'
  left_rotate parent
  get_root

borrow_right : (tn sib : ℕ) → M ℕ
borrow_right tn sib = do
  far ← left_of sib
  far_black ← is_black_color far
  sib' ←
      (if far_black
        then (do
          set_red_color sib
          near ← right_of sib
          set_black_color near
          left_rotate sib
          parent ← parent_of tn
          left_of parent)
        else pure sib)
  parent ← parent_of tn
  c ← get_color parent
  set_color sib' c
  set_black_color parent
  far' ← left_of sib'
  set_black_color far'
  right_rotate parent
  get_root

-- Both sons of the sibling are black: it is painted red, and the loop goes on at the parent.
both_black : (sib : ℕ) → M Bool
both_black sib = do
  l ← left_of sib
  r ← right_of sib
  lb ← is_black_color l
  rb ← is_black_color r
  pure (lb && rb)

-- The first test is the source's `leftOf(tn) == tn`.
pub remove_round : (tn : ℕ) → M ℕ
remove_round tn = do
  l ← left_of tn
  if l == tn
      then (do
        sib ← left_sibling tn
        paint ← both_black sib
        if paint then (do set_red_color sib; parent_of tn) else borrow_left tn sib)
      else (do
        sib ← right_sibling tn
        paint ← both_black sib
        if paint then (do set_red_color sib; parent_of tn) else borrow_right tn sib)

-- The `tn` at which the loop ends.
unfoldable pub remove_loop : (fuel tn : ℕ) → M ℕ
remove_loop zero tn = λ _. out_of_fuel
remove_loop (suc fuel) tn = do
  r ← get_root
  b ← is_black_color tn
  if not (tn == r) && b then (do next ← remove_round tn; remove_loop fuel next) else pure tn

unfoldable pub fix_after_remove : (fuel tn : ℕ) → M (Unit {0})
fix_after_remove fuel tn = do last ← remove_loop fuel tn; set_black_color last
