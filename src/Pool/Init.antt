-- ===== src/Pool/Init.antt =====
-- initPool of src/net/pool.c: the settings, and the first connections. The text of the password, the
-- address and the callbacks are left out.
pub mod Connects
use redis_pool.Base.{
  ℕ, zero, suc, ◌+◌, ◌-◌, Bool, true, false, not, ◌&&◌, ◌||◌, Option, none, some, List, [], ltb,
  leb, ◌==◌, if◌then◌else◌, length,
}
use Prim.Native.Nat.{min}
use redis_pool.Pool.{Redis, Pool, Dial, update, at, new_redis}

-- The arguments of initPool; a text has the bytes before the final zero, and NULL is `none`.
pub record Settings : Type 0 where
  pub max_num : ℕ
  pub min_num : ℕ
  pub ip : Option (List ℕ)
  pub port : ℕ
  pub auth : Option (List ℕ)

-- base.h and net/s.h
abbrev pub ip_len : ℕ
ip_len = 20

abbrev pub max_port : ℕ
max_port = 65535

abbrev pub redis_auth_len : ℕ
redis_auth_len = 31

abbrev is_bad_ip : Option (List ℕ) → Bool
is_bad_ip none = true
is_bad_ip (some ip) = leb ip_len (length ip)

abbrev pub is_bad : Settings → Bool
is_bad s =
    is_bad_ip s.ip
    || ((s.port == 0) || (ltb max_port s.port || ((s.max_num == 0) || (s.min_num == 0))))

abbrev auth_length : Option (List ℕ) → ℕ
auth_length none = 0
auth_length (some auth) = min (redis_auth_len - 1) (length auth)

-- The pool before its first connection; `redises` has what malloc left there.
abbrev pub empty_pool : Settings → (redises : ℕ) → Pool
empty_pool s redises = record {
  max_num = s.max_num;
  min_num = s.min_num;
  avalid_num = s.min_num;
  active_num = 0;
  auth_len = auth_length s.auth;
  redises = redises;
  nodes = λ p. none;
  closed = [];
}

-- NULL, the pool, or the use of memory that nothing has set: where newRedis fails freePool frees the
-- tables, whose pointers are set behind the loop only.
pub data Made : Type 0 where
  refused : Made
  made : Pool → Made
  fault : Made

abbrev pub link_next : (r tmp : ℕ) → Pool → Option Pool
link_next r tmp p = elim (at p r) [
  | none ↦ none
  | some n ↦ some (record p { nodes = update p.nodes r (some (record n { next = tmp })) })
]

-- What a turn of the loop does with the new connection.
abbrev pub joined_to : (num r : ℕ) → ℕ × Pool → Option Pool
joined_to num r (tmp, p) =
    if tmp == 0
    then none
    else if num == 0
    then some (record p { redises = tmp })
    else link_next r tmp p

abbrev pub and_then : (Pool → Option Pool) → Option Pool → Option Pool
and_then next none = none
and_then next (some p) = next p

-- The loop: `dials num` answers newRedis at the turn `num`, and `r` is the last connection.
unfoldable pub connect_loop : (dials : ℕ → Dial) (left num r : ℕ) → Pool → Option Pool
connect_loop dials zero num r p = some p
connect_loop dials (suc left) num r p =
    let (tmp, q) = new_redis (dials num) p in
    and_then (connect_loop dials left (num + 1) tmp) (joined_to num r (tmp, q))

unfoldable pub init_pool : (malloc_ok : Bool) → Settings → (redises : ℕ) (dials : ℕ → Dial) → Made
init_pool malloc_ok s redises dials =
    if is_bad s
    then refused
    else if not malloc_ok
    then refused
    else elim (connect_loop dials s.min_num 0 0 (empty_pool s redises)) [
      | none ↦ fault
      | some p ↦ made p
    ]
