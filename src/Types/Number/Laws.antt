-- ===== src/Types/Number/Laws.antt =====
-- parseInt against the integer that a text denotes.
use redis_pool.Base.{
  ℕ, zero, suc, ◌+◌, ◌-◌, ◌*◌, ◌≤◌, ◌<◌, ◌≡◌, ◌≢◌, ◌∙◌, ap, ◌++◌, refl, inl, inr, Bool, true, false,
  ◌&&◌, Option, none, some, List, [], ◌∷◌, arith, ltb, ◌==◌, Bool-cases, if◌then◌else◌, length,
  take,
}
use redis_pool.Base.Int.{ℤ, pos, sub_ℕ}
use redis_pool.Types.Number.{
  ullong_max, llong_max, is_digit, digits_loop, store_num, parse_magnitude, parse_int,
}

unfoldable pub all_digits : List ℕ → Bool
all_digits [] = true
all_digits (c ∷ cs) = is_digit c && all_digits cs

-- The number that decimal digits denote behind the number `n`, with no bound.
unfoldable pub decimal : ℕ → List ℕ → ℕ
decimal n [] = n
decimal n (c ∷ cs) = decimal (n * 10 + (c - b'0')) cs

-- The integer if an int64_t holds it.
unfoldable pub int64 : Bool → ℕ → Option ℤ
int64 true n = if ltb (llong_max + 1) n then none else some (sub_ℕ 0 n)
int64 false n = if ltb llong_max n then none else some (pos n)

-- A magnitude is one digit from 1 to 9 or more, and no 0 among them.
unfoldable pub magnitude : Bool → List ℕ → Option ℤ
unfolding all_digits decimal int64
magnitude negative [] = none
magnitude negative (c ∷ cs) =
    if all_digits (c ∷ cs) then int64 negative (decimal 0 (c ∷ cs)) else none

unfoldable pub negative_of : List ℕ → Option ℤ
negative_of [] = none
negative_of (c ∷ cs) = if c == b'0' then some (pos 0) else magnitude true (c ∷ cs)

unfoldable pub integer_of : List ℕ → Option ℤ
integer_of [] = none
integer_of (c ∷ []) = if c == b'0' then some (pos 0) else magnitude false (c ∷ [])
integer_of (c ∷ d ∷ cs) = if c == b'-' then negative_of (d ∷ cs) else magnitude false (c ∷ d ∷ cs)

le-decimal : (n : ℕ) (cs : List ℕ) → n ≤ decimal n cs
unfolding decimal
le-decimal n [] = omega arith
le-decimal n (c ∷ cs) = omega (arith, le-decimal (n * 10 + (c - b'0')) cs)

int64-above : (negative : Bool) (n : ℕ) → ullong_max < n → int64 negative n ≡ none
unfolding int64
int64-above true n h = ground arith
int64-above false n h = ground arith

-- The loop and the tests behind it accept digits alone, and then give the bounded value.
store_num-digits_loop :
    (negative : Bool) (left : ℕ) (p : List ℕ) (n : ℕ)
    → left ≤ length p
    → n ≤ ullong_max
    → store_num negative (digits_loop left p n)
      ≡ (if all_digits (take left p) then int64 negative (decimal n (take left p)) else none)
unfolding store_num digits_loop all_digits decimal
store_num-digits_loop true zero p n h b = unfold int64 in refl
store_num-digits_loop false zero p n h b = unfold int64 in refl
store_num-digits_loop negative (suc left) [] n h b = elim h [ ]
store_num-digits_loop negative (suc left) (c ∷ p) n h b =
    let next = n * 10 + (c - b'0') in
    ground (
      arith,
      store_num-digits_loop negative left p next,
      int64-above negative (decimal next (take left p)),
      le-decimal next (take left p),
    )

parse_magnitude-magnitude :
    (negative : Bool) (c : ℕ) (p : List ℕ) (plen left : ℕ)
    → left ≤ length p
    → ((c == b'0') && (plen == 1)) ≡ false
    → parse_magnitude negative (c ∷ p) plen (plen + suc left) ≡ magnitude negative (c ∷ take left p)
unfolding parse_magnitude magnitude
parse_magnitude-magnitude negative c p plen left h zero_first =
    let count : plen + suc left - (plen + 1) ≡ left = omega arith in
    rw (zero_first, count)
      (elim (Bool-cases (is_digit c)) [
        | inl e ↦
            rw (store_num-digits_loop negative left p (c - b'0') h (ground arith)) (ground arith)
        | inr e ↦ ground arith
      ])

parse_magnitude-minus_zero :
    (negative : Bool) (c : ℕ) (p : List ℕ) (slen : ℕ)
    → c ≡ b'0'
    → parse_magnitude negative (c ∷ p) 1 slen ≡ some (pos 0)
unfolding parse_magnitude
parse_magnitude-minus_zero negative c p slen h = rw h

magnitude-not_digit :
    (negative : Bool) (c : ℕ) (cs : List ℕ)
    → is_digit c ≡ false
    → magnitude negative (c ∷ cs) ≡ none
unfolding magnitude
magnitude-not_digit negative c cs h = ground arith

-- For every text of at least `slen` bytes, parseInt gives the integer that the first `slen` bytes
-- denote by `integer_of`, whose bounds are those of int64_t, and refuses where that has none.
pub parse_int-integer_of :
    (numeric : List ℕ) (slen : ℕ)
    → slen ≤ length numeric
    → parse_int numeric slen ≡ integer_of (take slen numeric)
unfolding parse_int integer_of negative_of
parse_int-integer_of numeric zero h = refl
parse_int-integer_of [] (suc slen) h = elim h [ ]
parse_int-integer_of (c ∷ cs) (suc zero) h =
    ground (arith, parse_magnitude-magnitude false c cs 0 0, magnitude-not_digit false c [])
parse_int-integer_of (c ∷ []) (suc (suc slen)) h = absurd (omega arith)
parse_int-integer_of (c ∷ d ∷ cs) (suc (suc slen)) h = ground (
  arith,
  parse_magnitude-magnitude false c (d ∷ cs) 0 (suc slen),
  parse_magnitude-magnitude true d cs 1 slen,
  parse_magnitude-minus_zero true d cs (suc (suc slen)),
)

take-length : (xs : List ℕ) → take (length xs) xs ≡ xs
take-length [] = refl
take-length (x ∷ xs) = ap (◌∷◌ x) (take-length xs)

all_digits-zero : (cs ds : List ℕ) → all_digits (cs ++ b'0' ∷ ds) ≡ false
unfolding all_digits
all_digits-zero [] ds = refl
all_digits-zero (c ∷ cs) ds = ground (arith, all_digits-zero cs ds)

magnitude-zero :
    (negative : Bool) (c : ℕ) (es : List ℕ)
    → all_digits es ≡ false
    → magnitude negative (c ∷ es) ≡ none
unfolding magnitude
magnitude-zero negative c es h = ground arith

integer_of-magnitude :
    (c : ℕ) (es : List ℕ)
    → c ≢ b'-'
    → all_digits es ≡ false
    → integer_of (c ∷ es) ≡ magnitude false (c ∷ es)
unfolding integer_of all_digits
integer_of-magnitude c [] h e = cc
integer_of-magnitude c (d ∷ es) h e = ground arith

-- A text that does not begin with '-' and has the byte '0' behind its first byte is refused,
-- whatever the other bytes are: no number such as 10 or 205 is read.
pub parse_int_zero_inside :
    (c : ℕ) (cs ds : List ℕ)
    → c ≢ b'-'
    → parse_int (c ∷ (cs ++ b'0' ∷ ds)) (length (c ∷ (cs ++ b'0' ∷ ds))) ≡ none
parse_int_zero_inside c cs ds h =
    let es = cs ++ b'0' ∷ ds in
    let inside = all_digits-zero cs ds in
    parse_int-integer_of (c ∷ es) (length (c ∷ es)) (omega arith)
    ∙ ap integer_of (take-length (c ∷ es))
    ∙ integer_of-magnitude c es h inside
    ∙ magnitude-zero false c es inside
