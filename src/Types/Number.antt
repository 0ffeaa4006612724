-- ===== src/Types/Number.antt =====
-- parseInt of src/types.c, which reads the lengths of the redis protocol. A pointer into the text
-- is the list of the bytes from it on; the result is the value stored through `num`, `none` where
-- the function returns false. The callers never pass a null `num`.
pub mod Laws
use redis_pool.Base.{
  ℕ, zero, suc, ◌+◌, ◌-◌, ◌*◌, ◌/◌, ◌^◌, Bool, true, false, ◌&&◌, ◌||◌, Option, none, some, List,
  [], ◌∷◌, ltb, leb, ◌==◌, if◌then◌else◌, get_or, drop,
}
use redis_pool.Base.Int.{ℤ, pos, sub_ℕ}

abbrev pub ullong_max : ℕ
ullong_max = 2 ^ 64 - 1

abbrev pub llong_max : ℕ
llong_max = 2 ^ 63 - 1

-- `*p`
abbrev pub deref : List ℕ → ℕ
deref p = get_or p 0 0

abbrev pub is_digit : ℕ → Bool
is_digit c = leb b'1' c && leb c b'9'

-- The loop over the digits behind the first: `left` is slen - plen. `none` is its `return false`,
-- otherwise the number read and the bytes that are left.
unfoldable pub digits_loop : (left : ℕ) (p : List ℕ) (n : ℕ) → Option (ℕ × ℕ)
digits_loop zero p n = some (n, 0)
digits_loop (suc left) p n =
    let d = deref p - b'0' in
    let rest = digits_loop left (drop 1 p) (n * 10 + d) in
    if is_digit (deref p)
    then if ltb (ullong_max / 10) n
      then none
      else if ltb (ullong_max - d) (n * 10)
      then none
      else rest
    else some (n, suc left)

-- The tests behind the loop, and the sign.
unfoldable pub store_num : Bool → Option (ℕ × ℕ) → Option ℤ
store_num negative none = none
store_num negative (some (n, left)) =
    if ltb 0 left
    then none
    else if negative
    then if ltb (llong_max + 1) n then none else some (sub_ℕ 0 n)
    else if ltb llong_max n
    then none
    else some (pos n)

-- From the test for "-0" on; `plen` bytes are read.
unfoldable pub parse_magnitude : Bool → (p : List ℕ) (plen slen : ℕ) → Option ℤ
unfolding store_num digits_loop
parse_magnitude negative p plen slen =
    if (deref p == b'0') && (plen == 1)
    then some (pos 0)
    else if ltb (deref p) b'1' || ltb b'9' (deref p)
    then none
    else store_num negative (digits_loop (slen - (plen + 1)) (drop 1 p) (deref p - b'0'))

unfoldable pub parse_int : (numeric : List ℕ) (slen : ℕ) → Option ℤ
parse_int numeric slen =
    if slen == 0
    then none
    else if (slen == 1) && (deref numeric == b'0')
    then some (pos 0)
    else if deref numeric == b'-'
    then if slen == 1 then none else parse_magnitude true (drop 1 numeric) 1 slen
    else parse_magnitude false numeric 0 slen
