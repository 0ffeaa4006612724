-- ===== src/Pool/Idle.antt =====
-- The idle connections of src/net/pool.c as a list, first the one that getRedis takes.
use redis_pool.Base.{
  ℕ, ◌+◌, ◌%◌, ◌^◌, ◌-◌, ◌<◌, ◌≡◌, refl, Bool, false, ◌||◌, Option, some, List, [], ◌∷◌, arith,
  ◌==◌,
}
use redis_pool.Pool.{Redis, Pool, Dial, update, get_redis, put_redis}

abbrev pub AreIdle : (ℕ → Option Redis) → (head : ℕ) → List ℕ → Type 0
AreIdle nodes head [] = head ≡ 0
AreIdle nodes head (x ∷ xs) =
    (head ≡ x)
    × (0 < x)
    × ((n : Redis) × (nodes x ≡ some n) × (n.prev ≡ 0) × AreIdle nodes n.next xs)

abbrev pub occurs : ℕ → List ℕ → Bool
occurs x [] = false
occurs x (y ∷ ys) = (x == y) || occurs x ys

pub AreIdle-update :
    (nodes : ℕ → Option Redis) (head x : ℕ) (n : Option Redis) (xs : List ℕ)
    → occurs x xs ≡ false
    → AreIdle nodes head xs
    → AreIdle (update nodes x n) head xs
AreIdle-update nodes head x n [] e h = h
AreIdle-update nodes head x n (y ∷ ys) e (leads, pos, (m, found, first, rest)) =
    (leads, pos, (m, ground arith, first, AreIdle-update nodes m.next x n ys (ground arith) rest))

-- putRedis of a connection that is not idle makes it the first idle one, and changes no count.
pub put_redis-AreIdle :
    (r : ℕ) (n : Redis) (rps : Pool) (xs : List ℕ)
    → AreIdle rps.nodes rps.redises xs
    → 0 < r
    → rps.nodes r ≡ some n
    → occurs r xs ≡ false
    → (rps' : Pool) × (put_redis r rps ≡ some rps')
      × AreIdle rps'.nodes rps'.redises (r ∷ xs)
      × (rps'.avalid_num ≡ rps.avalid_num)
      × (rps'.active_num ≡ rps.active_num)
unfolding put_redis
put_redis-AreIdle r n rps xs idle pos found out = (
  record rps {
    nodes = update rps.nodes r (some (record n { prev = 0; next = rps.redises }));
    redises = r;
  },
  ground arith,
  (
    refl,
    pos,
    (
      record n { prev = 0; next = rps.redises },
      ground arith,
      refl,
      AreIdle-update rps.nodes rps.redises r _ xs out idle,
    ),
  ),
  refl,
  refl,
)

-- While `avalidNum` is positive getRedis takes the first idle connection.
pub get_redis-AreIdle :
    (d : Dial) (rps : Pool) (x : ℕ) (xs : List ℕ)
    → AreIdle rps.nodes rps.redises (x ∷ xs)
    → 0 < rps.avalid_num
    → (rps' : Pool) × (get_redis d rps ≡ some (x, rps')) × AreIdle rps'.nodes rps'.redises xs
unfolding get_redis
get_redis-AreIdle d rps x xs (leads, pos, (n, found, first, rest)) h = (
  record rps {
    redises = n.next;
    avalid_num = rps.avalid_num - 1;
    active_num = (rps.active_num + 1) % 2 ^ 32;
  },
  ground arith,
  rest,
)

-- While `avalidNum` is positive, a connection that is not idle and is put back is the next that
-- getRedis gives out, and then the idle connections are those from before.
pub get_redis-put_redis :
    (d : Dial) (r : ℕ) (n : Redis) (rps : Pool) (xs : List ℕ)
    → AreIdle rps.nodes rps.redises xs
    → 0 < r
    → rps.nodes r ≡ some n
    → occurs r xs ≡ false
    → 0 < rps.avalid_num
    → (rps' : Pool) × (rps'' : Pool) × (put_redis r rps ≡ some rps')
      × (get_redis d rps' ≡ some (r, rps''))
      × AreIdle rps''.nodes rps''.redises xs
get_redis-put_redis d r n rps xs idle pos found out h =
    let (rps', puts, idle', avalid, active) = put_redis-AreIdle r n rps xs idle pos found out in
    let (rps'', gets, idle'') = get_redis-AreIdle d rps' r xs idle' (omega (arith, avalid)) in
    (rps', rps'', puts, gets, idle'')
