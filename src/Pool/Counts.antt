-- ===== src/Pool/Counts.antt =====
-- The two counters of src/net/pool.c over any run of its operations.
use redis_pool.Base.{
  ℕ, suc, ◌+◌, ◌%◌, ◌^◌, ◌≤◌, ◌<◌, ◌≡◌, ◌∙◌, refl, ap, inl, inr, ◌⊎◌, Bool, true, Option, none,
  some, arith, ltb, leb, ◌==◌, Bool-cases, Option-cases,
}
use Prim.Native.Nat.{max}
use mathlib.Core.Path.{subst}
use redis_pool.Pool.Same.{SameCounts, same, kept, Counted, Counted-put_redis, Counted-del_redis}
use redis_pool.Pool.{
  Pool, Dial, is_refused, new_redis, get_redis, put_redis, del_redis, count_active,
}

-- A run of the operations of the pool, with the number of connections that getRedis gave out.
pub data Steps (rps : Pool) : ℕ → Pool → Type 0 where
  start : Steps rps 0 rps
  gave :
      {k : ℕ} {q q' : Pool}
      → Steps rps k q
      → (d : Dial) (r : ℕ) → get_redis d q ≡ some (r, q')
      → 0 < r
      → Steps rps (suc k) q'
  gave_none :
      {k : ℕ} {q q' : Pool}
      → Steps rps k q
      → (d : Dial) → get_redis d q ≡ some (0, q')
      → Steps rps k q'
  put : {k : ℕ} {q q' : Pool} → Steps rps k q → (r : ℕ) → put_redis r q ≡ some q' → Steps rps k q'
  deleted :
      {k : ℕ} {q q' : Pool}
      → Steps rps k q
      → (fuel r : ℕ) (all : Bool) → del_redis fuel r all q ≡ some q'
      → Steps rps k q'

-- What getRedis does to the counters where it gives out a connection.
record Got (q q' : Pool) : Type 0 where
  active : q'.active_num ≡ (q.active_num + 1) % 2 ^ 32
  max : q'.max_num ≡ q.max_num
  min : q'.min_num ≡ q.min_num
  avalid :
      ((0 < q.avalid_num) × (q'.avalid_num + 1 ≡ q.avalid_num))
      ⊎ ((q.avalid_num ≡ 0) × (q'.avalid_num ≡ 0) × (q.active_num < q.max_num))

Gives : Pool → Option (ℕ × Pool) → Type 0
Gives q none = Unit {0}
Gives q (some (r, q')) = (0 < r → Got q q') × (r ≡ 0 → SameCounts q q')

new_redis-SameCounts : (d : Dial) (q : Pool) → SameCounts q (new_redis d q).1
unfolding new_redis
new_redis-SameCounts d q = elim (Bool-cases (d.fd == 0)) [
  | inl e ↦ rw e (same q)
  | inr e ↦ elim (Bool-cases (is_refused q d)) [
    | inl f ↦ rw (e, f) (kept q _ _ _)
    | inr f ↦ elim (Bool-cases (d.address == 0)) [
      | inl g ↦ rw (e, f, g) (kept q _ _ _)
      | inr g ↦ elim (Bool-cases d.client) [
        | inl h ↦ rw (e, f, g, h) (kept q _ _ _)
        | inr h ↦ rw (e, f, g, h) (same q)
      ]
    ]
  ]
]

Gives-count_active :
    (q q' : Pool) (r : ℕ)
    → SameCounts q q'
    → q.avalid_num ≡ 0
    → q.active_num < q.max_num
    → Gives q (some (count_active (r, q')))
unfolding Gives
Gives-count_active q q' r s e h = elim (Bool-cases (r == 0)) [
  | inl z ↦ rw z (λ pos. absurd (omega arith), λ _. s)
  | inr z ↦ rw z (
    λ pos. record {
      active = ap (λ n. (n + 1) % 2 ^ 32) s.active;
      max = s.max;
      min = s.min;
      avalid = inr (e, omega (arith, s.avalid), h);
    },
    λ zero_r. absurd (ground arith),
  )
]

Gives-get_redis : (d : Dial) (q : Pool) → Gives q (get_redis d q)
unfolding get_redis Gives
Gives-get_redis d q = elim (Bool-cases (ltb 0 q.avalid_num)) [
  | inl e ↦ elim (Bool-cases (q.redises == 0)) [
    | inl f ↦ rw (e, f) tt
    | inr f ↦ elim (Option-cases (q.nodes q.redises)) [
      | inl g ↦ rw (e, f, g) tt
      | inr (n, g) ↦
          rw (e, f, g)
            (
              λ pos. record {
                active = refl;
                max = refl;
                min = refl;
                avalid = inl (ground arith, ground arith);
              },
              λ zero_r. absurd (ground arith),
            )
    ]
  ]
  | inr e ↦ elim (Bool-cases (leb q.max_num q.active_num)) [
    | inl f ↦ rw (e, f) (λ pos. absurd (omega arith), λ _. same q)
    | inr f ↦
        rw (e, f)
          (Gives-count_active q (new_redis d q).1 (new_redis d q).0 (new_redis-SameCounts d q)
            (ground arith) (ground arith))
  ]
]

-- The counters after a run from `rps` that gave out `k` connections.
record Tally (rps : Pool) (k : ℕ) (q : Pool) : Type 0 where
  active : q.active_num ≡ k
  limit : q.max_num ≡ rps.max_num
  avalid :
      (q.avalid_num + k ≡ rps.min_num) ⊎ ((q.avalid_num ≡ 0) × (k ≤ max rps.max_num rps.min_num))

Tally-same : (rps : Pool) (k : ℕ) (q q' : Pool) → Tally rps k q → SameCounts q q' → Tally rps k q'
Tally-same rps k q q' t s = record {
  active = s.active ∙ t.active;
  limit = s.max ∙ t.limit;
  avalid = elim t.avalid [
    | inl e ↦ inl (omega (arith, s.avalid))
    | inr (e, h) ↦ inr (omega (arith, s.avalid), h)
  ];
}

module _ (rps : Pool) (min_small : rps.min_num < 2 ^ 32) (max_small : rps.max_num < 2 ^ 32) where
  Tally-Got : (k : ℕ) (q q' : Pool) → Tally rps k q → Got q q' → Tally rps (suc k) q'
  Tally-Got k q q' t g = record {
    active = elim g.avalid [
      | inl a ↦ elim t.avalid [
        | inl b ↦ omega (arith, g.active, t.active, a, b)
        | inr b ↦ absurd (omega (arith, a, b))
      ]
      | inr a ↦ omega (arith, g.active, t.active, t.limit, a)
    ];
    limit = g.max ∙ t.limit;
    avalid = elim g.avalid [
      | inl a ↦ elim t.avalid [
        | inl b ↦ inl (omega (arith, a, b))
        | inr b ↦ absurd (omega (arith, a, b))
      ]
      | inr a ↦ inr (a.1, omega (arith, t.active, t.limit, a))
    ];
  }

  Tally-Steps :
      rps.active_num ≡ 0
      → rps.avalid_num ≡ rps.min_num
      → (k : ℕ) (q : Pool) → Steps rps k q
      → Tally rps k q
  unfolding Gives Counted
  Tally-Steps e f k q start = record { active = e; limit = refl; avalid = inl (omega (arith, f)) }
  Tally-Steps e f k q (gave {k = j} {q = p} s d r run pos) =
      Tally-Got j p q (Tally-Steps e f j p s) ((subst (Gives p) run (Gives-get_redis d p)).0 pos)
  Tally-Steps e f k q (gave_none {q = p} s d run) =
      Tally-same rps k p q (Tally-Steps e f k p s)
        ((subst (Gives p) run (Gives-get_redis d p)).1 refl)
  Tally-Steps e f k q (put {q = p} s r run) =
      Tally-same rps k p q (Tally-Steps e f k p s) (subst (Counted p) run (Counted-put_redis r p))
  Tally-Steps e f k q (deleted {q = p} s fuel r all run) =
      Tally-same rps k p q (Tally-Steps e f k p s)
        (subst (Counted p) run (Counted-del_redis fuel r all p))

-- From a pool as initPool leaves its counters, every run of getRedis, putRedis and delRedis gives out
-- at most as many connections as the larger of `maxNum` and `minNum`, however many are put back.
pub Steps-le_max :
    (rps : Pool)
    → rps.min_num < 2 ^ 32
    → rps.max_num < 2 ^ 32
    → rps.active_num ≡ 0
    → rps.avalid_num ≡ rps.min_num
    → (k : ℕ) (q : Pool) → Steps rps k q
    → k ≤ max rps.max_num rps.min_num
Steps-le_max rps small large e f k q s = elim (Tally-Steps rps small large e f k q s).avalid [
  | inl h ↦ omega (arith, h)
  | inr h ↦ h.1
]

-- Once that many connections have been given out, getRedis fails for ever, with the pool unchanged,
-- also if every connection has been put back and is idle.
pub get_redis-exhausted :
    (rps : Pool)
    → rps.min_num < 2 ^ 32
    → rps.max_num < 2 ^ 32
    → rps.active_num ≡ 0
    → rps.avalid_num ≡ rps.min_num
    → (q : Pool) → Steps rps (max rps.max_num rps.min_num) q
    → (d : Dial) → get_redis d q ≡ some (0, q)
unfolding get_redis
get_redis-exhausted rps small large e f q s d =
    let t = Tally-Steps rps small large e f (max rps.max_num rps.min_num) q s in
    let none_left : q.avalid_num ≡ 0 = elim t.avalid [ inl h ↦ omega (arith, h) | inr h ↦ h.0 ] in
    let full : leb q.max_num q.active_num ≡ true = ground (arith, t.active, t.limit) in
    rw (none_left, full) refl
