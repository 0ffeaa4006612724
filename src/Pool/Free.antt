-- ===== src/Pool/Free.antt =====
-- delRedis of src/net/pool.c for all idle connections, as freePool calls it.
use redis_pool.Base.{
  ℕ, zero, suc, ◌<◌, ◌≡◌, refl, ap, ◌∙◌, true, false, Option, none, some, List, [], ◌∷◌, arith,
  ◌==◌, if◌then◌else◌, length,
}
use redis_pool.Pool.{Redis, Pool, update, free_redis, free_chain, del_after, del_all, del_redis}
use redis_pool.Pool.Idle.{AreIdle, occurs, AreIdle-update}

abbrev pub AreDistinct : List ℕ → Type 0
AreDistinct [] = Unit {0}
AreDistinct (x ∷ xs) = (occurs x xs ≡ false) × AreDistinct xs

abbrev pub without : (ℕ → Option Redis) → List ℕ → ℕ → Option Redis
without nodes xs y = if occurs y xs then none else nodes y

abbrev socket_at : (ℕ → Option Redis) → ℕ → ℕ
socket_at nodes x = elim (nodes x) [ none ↦ 0 | some n ↦ n.fd ]

-- The closed sockets behind the ends of the connections `xs`, the last first.
pub closing : (ℕ → Option Redis) → (xs closed : List ℕ) → List ℕ
closing nodes [] closed = closed
closing nodes (x ∷ xs) closed = closing nodes xs (socket_at nodes x ∷ closed)

-- The connections `xs` are freed, and the socket of each is closed once, in their order; the others are
-- left.
pub record IsFreed (rps : Pool) (xs : List ℕ) (rps' : Pool) : Type 0 where
  pub nodes : (y : ℕ) → rps'.nodes y ≡ without rps.nodes xs y
  pub closed : rps'.closed ≡ closing rps.nodes xs rps.closed

abbrev next_of : Redis → ℕ
next_of m = m.next

abbrev freed_one : Pool → ℕ → Redis → Pool
freed_one rps x n = record rps { nodes = update rps.nodes x none; closed = n.fd ∷ rps.closed }

free_redis-found :
    (x : ℕ) (n : Redis) (rps : Pool)
    → 0 < x
    → rps.nodes x ≡ some n
    → free_redis x rps ≡ some (freed_one rps x n)
unfolding free_redis
free_redis-found x n rps pos found = ground arith

chain_step :
    (fuel x : ℕ) (n : Redis) (rps : Pool)
    → 0 < x
    → rps.nodes x ≡ some n
    → free_chain next_of (suc fuel) x rps ≡ free_chain next_of fuel n.next (freed_one rps x n)
unfolding free_chain
chain_step fuel x n rps pos found =
    let set : (x == 0) ≡ false = ground arith in rw (set, found, free_redis-found x n rps pos found)

without-update :
    (nodes : ℕ → Option Redis) (x : ℕ) (xs : List ℕ) (y : ℕ)
    → without (update nodes x none) xs y ≡ without nodes (x ∷ xs) y
without-update nodes x xs y = ground arith

closing-update :
    (nodes : ℕ → Option Redis) (x : ℕ) (xs closed : List ℕ)
    → occurs x xs ≡ false
    → closing (update nodes x none) xs closed ≡ closing nodes xs closed
unfolding closing
closing-update nodes x [] closed h = refl
closing-update nodes x (y ∷ ys) closed h =
    let apart : (y == x) ≡ false = ground arith in
    let rest : occurs x ys ≡ false = ground arith in
    let same : socket_at (update nodes x none) y ≡ socket_at nodes y = rw (socket_at, apart) refl in
    ap (λ k. closing (update nodes x none) ys (k ∷ closed)) same
    ∙ closing-update nodes x ys (socket_at nodes y ∷ closed) rest

-- The first of the connections is closed, and then the others.
closing-first :
    (rps : Pool) (x : ℕ) (n : Redis) (xs : List ℕ)
    → rps.nodes x ≡ some n
    → occurs x xs ≡ false
    → closing (update rps.nodes x none) xs (n.fd ∷ rps.closed)
      ≡ closing rps.nodes (x ∷ xs) rps.closed
unfolding closing
closing-first rps x n xs found apart =
    let socket : n.fd ≡ socket_at rps.nodes x = rw (socket_at, found) refl in
    closing-update rps.nodes x xs (n.fd ∷ rps.closed) apart
    ∙ ap (λ k. closing rps.nodes xs (k ∷ rps.closed)) socket

free_chain-IsFreed :
    (fuel head : ℕ) (rps : Pool) (xs : List ℕ)
    → AreIdle rps.nodes head xs
    → AreDistinct xs
    → length xs < fuel
    → (rps' : Pool) × (free_chain next_of fuel head rps ≡ some rps') × IsFreed rps xs rps'
unfolding free_chain
free_chain-IsFreed zero head rps xs idle distinct enough = elim enough [ ]
free_chain-IsFreed (suc fuel) head rps [] idle distinct enough =
    (rps, rw idle refl, record { nodes = λ y. refl; closed = unfold closing in refl })
free_chain-IsFreed (suc fuel) head rps (x ∷ xs) (leads, pos, (n, found, first, rest)) distinct
      enough =
    let next = freed_one rps x n in
    let rest' = AreIdle-update rps.nodes n.next x none xs distinct.0 rest in
    let (rps', frees, freed) =
      free_chain-IsFreed fuel n.next next xs rest' distinct.1 (omega arith) in
    (
      rps',
      ap (λ h. free_chain next_of (suc fuel) h rps) leads
          ∙ chain_step fuel x n rps pos found
          ∙ frees,
      record {
        nodes = λ y. freed.nodes y ∙ without-update rps.nodes x xs y;
        closed = freed.closed ∙ closing-first rps x n xs found distinct.0;
      },
    )

free_chain-end :
    (follow : Redis → ℕ) (fuel r : ℕ) (q : Pool) → r ≡ 0 → free_chain follow (suc fuel) r q ≡ some q
unfolding free_chain
free_chain-end follow fuel r q e = rw e refl

del_after-freed :
    (fuel : ℕ) (n : Redis) (q q' : Pool)
    → n.prev ≡ 0
    → free_chain next_of (suc fuel) n.next q ≡ some q'
    → del_after (suc fuel) n q ≡ some (record q' { redises = 0 })
del_after-freed fuel n q q' e run =
    rw (del_after, free_chain-end (λ m. m.prev) fuel n.prev q e, run) refl

del_redis-found :
    (fuel x : ℕ) (n : Redis) (rps : Pool)
    → 0 < x
    → rps.nodes x ≡ some n
    → del_redis fuel x true rps ≡ del_after fuel n (freed_one rps x n)
unfolding del_redis
del_redis-found fuel x n rps pos found =
    let set : (x == 0) ≡ false = ground arith in
    rw (set, found, del_all, free_redis-found x n rps pos found)

-- delRedis of all, from the first of the idle connections as freePool calls it, frees each of them
-- and nothing else, closes exactly their sockets, once each and in their order, and leaves no idle
-- connection. One round more than there are connections behind the first is enough.
pub del_redis-IsFreed :
    (fuel : ℕ) (rps : Pool) (x : ℕ) (xs : List ℕ)
    → AreIdle rps.nodes rps.redises (x ∷ xs)
    → AreDistinct (x ∷ xs)
    → length xs < fuel
    → (rps' : Pool) × (del_redis fuel rps.redises true rps ≡ some rps')
      × IsFreed rps (x ∷ xs) rps'
      × (rps'.redises ≡ 0)
del_redis-IsFreed (suc fuel) rps x xs (leads, pos, (n, found, first, rest)) distinct enough =
    let next = freed_one rps x n in
    let rest' = AreIdle-update rps.nodes n.next x none xs distinct.0 rest in
    let (rps', frees, freed) =
      free_chain-IsFreed (suc fuel) n.next next xs rest' distinct.1 enough in
    (
      record rps' { redises = 0 },
      ap (λ h. del_redis (suc fuel) h true rps) leads
          ∙ del_redis-found (suc fuel) x n rps pos found
          ∙ del_after-freed fuel n next rps' first frees,
      record {
        nodes = λ y. freed.nodes y ∙ without-update rps.nodes x xs y;
        closed = freed.closed ∙ closing-first rps x n xs found distinct.0;
      },
      refl,
    )
del_redis-IsFreed zero rps x xs idle distinct enough = elim enough [ ]
