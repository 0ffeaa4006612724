-- ===== src/Map/Values.antt =====
-- src/map/map.c: the keys and values of the tables. A pointer is given by what it points to, and NULL is
-- `none`; a text has the bytes before its final zero.
use redis_pool.Base.{
  ℕ, ◌-◌, Bool, true, false, not, ◌&&◌, ◌||◌, Option, none, some, List, [], ◌∷◌, ◌++◌, ltb, ◌==◌,
  if◌then◌else◌, length, replicate,
}
use redis_pool.Map.Hash.{MapKey}

-- struct mapValue; `value` is 0 for NULL.
pub record MapValue : Type 0 where
  pub value : ℕ
  pub is_malloc : Bool

unfoldable pub new_map_value : (ok : Bool) → (value : ℕ) (is_malloc : Bool) → Option MapValue
new_map_value ok value is_malloc =
    if ok then some (record { value = value; is_malloc = is_malloc }) else none

abbrev kept_str : Option (List ℕ) → Option (List ℕ)
kept_str none = none
kept_str (some []) = none
kept_str (some (c ∷ str)) = some (c ∷ str)

abbrev copied : Option (List ℕ) → Bool
copied none = false
copied (some str) = true

-- The two arguments say whether each malloc succeeds. A text without bytes becomes NULL.
unfoldable pub new_map_key : (key_ok str_ok : Bool) → (h : ℕ) → Option (List ℕ) → Option MapKey
new_map_key key_ok str_ok h str =
    if not key_ok
    then none
    else if copied (kept_str str) && not str_ok
    then none
    else some (record { h = h; str = kept_str str })

-- What is freed with a mapValue: its value, by the function for it or by free.
pub data Freed : Type 0 where
  by_func : (value : ℕ) → Freed
  by_free : (value : ℕ) → Freed

unfoldable pub free_map_value : (func : Bool) → Option MapValue → List Freed
free_map_value func none = []
free_map_value func (some v) =
    if v.is_malloc && not (v.value == 0)
    then (if func then by_func v.value else by_free v.value) ∷ []
    else []

-- base.h
abbrev pub free_name_len : ℕ
free_name_len = 30

-- The bytes of the name of a symbol. A name of 30 bytes fills them, without a final zero.
unfoldable pub new_symbol : (ok : Bool) → (name : Option (List ℕ)) → Option (List ℕ)
new_symbol ok none = none
new_symbol ok (some name) =
    if ltb free_name_len (length name) || (length name == 0)
    then none
    else if ok
    then some (name ++ replicate (free_name_len - length name) 0)
    else none
