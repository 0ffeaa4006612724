-- ===== src/Pool/Tests.antt =====
-- Runs of src/net/pool.c on a pool of two idle connections, and the theorems applied to them.
use redis_pool.Base.{
  ℕ, ◌+◌, ◌*◌, ◌<◌, ◌≤◌, ◌≡◌, refl, true, false, none, some, [], ◌∷◌, arith, ◌==◌, if◌then◌else◌,
}
use Prim.Native.Nat.{max}
use redis_pool.Pool.{Pool, Dial, get_redis, put_redis, del_redis}
use redis_pool.Pool.Init.{Settings, made, init_pool}
use redis_pool.Pool.Init.Connects.{Connects, addresses, AreNew, and_new, no_more, init_pool-AreIdle}
use redis_pool.Pool.Idle.{AreIdle}
use redis_pool.Pool.Free.{IsFreed, del_redis-IsFreed}
use redis_pool.Pool.Counts.{Steps, Steps-le_max, get_redis-exhausted, start, gave, put}

abbrev two_idle : Pool
two_idle = record {
  max_num = 1;
  min_num = 2;
  avalid_num = 2;
  active_num = 0;
  auth_len = 0;
  redises = 10;
  nodes = λ p.
      if p == 10
      then some (record { fd = 3; prev = 0; next = 20 })
      else if p == 20
      then some (record { fd = 4; prev = 0; next = 0 })
      else if p == 30
      then some (record { fd = 5; prev = 0; next = 77 })
      else none;
  closed = [];
}

abbrev no_answer : Dial
no_answer = record { fd = 0; sent = false; received = false; ok = []; address = 0; client = false }

two_idle-AreIdle : AreIdle two_idle.nodes two_idle.redises (10 ∷ 20 ∷ [])
two_idle-AreIdle = (
  refl,
  omega arith,
  (
    record { fd = 3; prev = 0; next = 20 },
    refl,
    refl,
    (refl, omega arith, (record { fd = 4; prev = 0; next = 0 }, refl, refl, refl)),
  ),
)

del_redis-IsFreed_example :
    (rps' : Pool) × (del_redis 2 10 true two_idle ≡ some rps')
    × IsFreed two_idle (10 ∷ 20 ∷ []) rps'
    × (rps'.redises ≡ 0)
del_redis-IsFreed_example =
    del_redis-IsFreed 2 two_idle 10 (20 ∷ []) two_idle-AreIdle (refl, (refl, tt)) (omega arith)

-- One connection is taken and put back.
abbrev one_taken : Pool
one_taken = record two_idle { avalid_num = 1; active_num = 1; redises = 20 }

took_one : Steps two_idle 1 one_taken
unfolding get_redis
took_one = gave start no_answer 10 refl (omega arith)

Steps-le_max_example : 1 ≤ max 1 2
Steps-le_max_example =
    Steps-le_max two_idle (omega arith) (omega arith) refl refl 1 one_taken took_one

abbrev both_taken : Pool
both_taken = record two_idle { avalid_num = 0; active_num = 2; redises = 0 }

took_both : Steps two_idle 2 both_taken
unfolding get_redis
took_both = gave took_one no_answer 20 refl (omega arith)

abbrev one_back : Pool
one_back = record both_taken {
  redises = 20;
  nodes = λ q. if q == 20 then some (record { fd = 4; prev = 0; next = 0 }) else two_idle.nodes q;
}

gave_back : Steps two_idle 2 one_back
unfolding put_redis
gave_back = put took_both 20 refl

get_redis-exhausted_example : get_redis no_answer one_back ≡ some (0, one_back)
get_redis-exhausted_example =
    get_redis-exhausted two_idle (omega arith) (omega arith) refl refl one_back gave_back no_answer

abbrev two_settings : Settings
two_settings = record { max_num = 4; min_num = 2; ip = some (b'h' ∷ []); port = 6379; auth = none }

-- Connections at the addresses 10 and 20, and so on.
abbrev good_dials : ℕ → Dial
good_dials i = record {
  fd = 3 + i;
  sent = true;
  received = true;
  ok = b'+' ∷ [];
  address = 10 * (i + 1);
  client = true;
}

good_dials-Connects : (i : ℕ) → i < 2 → Connects (good_dials i)
good_dials-Connects i h = record {
  socket = omega arith;
  room = omega arith;
  client = refl;
  sent = refl;
  received = refl;
  plus = refl;
}

good_dials-AreNew : AreNew [] (addresses good_dials 2 0)
unfolding addresses
good_dials-AreNew = and_new refl (and_new refl no_more)

init_pool-AreIdle_example :
    (p : Pool) × (init_pool true two_settings 0 good_dials ≡ made p)
    × AreIdle p.nodes p.redises (addresses good_dials 2 0)
    × (p.avalid_num ≡ 2)
    × (p.active_num ≡ 0)
    × (p.max_num ≡ 4)
    × (p.min_num ≡ 2)
init_pool-AreIdle_example =
    init_pool-AreIdle two_settings 0 good_dials refl good_dials-Connects good_dials-AreNew
