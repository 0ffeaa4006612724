-- ===== src/Pool.antt =====
-- src/net/pool.c and struct redis and struct pool of src/net/s.h: the connections of a worker to its
-- redis server. A pointer to a struct redis is a number, 0 is NULL; `none` is the use of a pointer
-- to no struct. The pool is never NULL. The fields that no operation here reads, such as the address
-- and the callbacks, are left out, and so are the tables of commands.
pub mod Idle
pub mod Free
pub mod Same
pub mod Counts
pub mod Init
mod Tests
use redis_pool.Base.{
  ℕ, zero, suc, ◌+◌, ◌-◌, ◌%◌, ◌^◌, Bool, true, false, not, ◌&&◌, ◌||◌, Option, none, some, List,
  [], ◌∷◌, ltb, leb, ◌==◌, if◌then◌else◌, get_or,
}

-- `fd` is the socket of the client `c`.
pub record Redis : Type 0 where
  pub fd : ℕ
  pub prev : ℕ
  pub next : ℕ

-- `redises` is the first of the idle connections. `closed` lists the sockets closed so far.
pub record Pool : Type 0 where
  pub max_num : ℕ
  pub min_num : ℕ
  pub avalid_num : ℕ
  pub active_num : ℕ
  pub auth_len : ℕ
  pub redises : ℕ
  pub nodes : ℕ → Option Redis
  pub closed : List ℕ

-- The answers of the system in newRedis: the socket that connectTcpFd gives, 0 for none, whether send
-- and recv succeed, the first bytes received, malloc's address, and whether newClient gives a client.
pub record Dial : Type 0 where
  pub fd : ℕ
  pub sent : Bool
  pub received : Bool
  pub ok : List ℕ
  pub address : ℕ
  pub client : Bool

abbrev pub update : (ℕ → Option Redis) → ℕ → Option Redis → ℕ → Option Redis
update nodes p n q = if q == p then n else nodes q

-- `*p`
abbrev pub at : Pool → ℕ → Option Redis
at rps p = if p == 0 then none else rps.nodes p

-- The login fails. All three bytes of "+OK" must be wrong for that.
abbrev pub is_refused : Pool → Dial → Bool
is_refused rps d =
    ltb 0 rps.auth_len
    && (not d.sent
        || (not d.received
            || (not (get_or d.ok 0 0 == b'+')
                && (not (get_or d.ok 1 0 == b'O') && not (get_or d.ok 2 0 == b'K')))))

abbrev pub close : ℕ → Pool → Pool
close fd rps = record rps { closed = fd ∷ rps.closed }

-- The new connection, 0 if there is none. Without a client freeRedis frees the struct, and the socket
-- stays open.
unfoldable pub new_redis : Dial → Pool → ℕ × Pool
new_redis d rps =
    if d.fd == 0
    then (0, rps)
    else if is_refused rps d
    then (0, close d.fd rps)
    else if d.address == 0
    then (0, close d.fd rps)
    else if not d.client
    then (0, rps)
    else (
      d.address,
      record rps {
        nodes = update rps.nodes d.address (some (record { fd = d.fd; prev = 0; next = 0 }));
      },
    )

abbrev pub count_active : ℕ × Pool → ℕ × Pool
count_active (r, rps) =
    if r == 0 then (0, rps) else (r, record rps { active_num = (rps.active_num + 1) % 2 ^ 32 })

unfoldable pub get_redis : Dial → Pool → Option (ℕ × Pool)
get_redis d rps =
    if ltb 0 rps.avalid_num
    then elim (at rps rps.redises) [
      | none ↦ none
      | some r ↦ some (
        rps.redises,
        record rps {
          redises = r.next;
          avalid_num = rps.avalid_num - 1;
          active_num = (rps.active_num + 1) % 2 ^ 32;
        },
      )
    ]
    else if leb rps.max_num rps.active_num
    then some (0, rps)
    else some (count_active (new_redis d rps))

unfoldable pub put_redis : (r : ℕ) → Pool → Option Pool
put_redis r rps = if r == 0 then some rps else elim (at rps r) [
  | none ↦ none
  | some n ↦ some (record rps {
    nodes = update rps.nodes r (some (record n { prev = 0; next = rps.redises }));
    redises = r;
  })
]

-- freeRedis closes the socket by freeClient.
unfoldable pub free_redis : (r : ℕ) → Pool → Option Pool
free_redis r rps = if r == 0 then some rps else elim (at rps r) [
  | none ↦ none
  | some n ↦ some (record rps { nodes = update rps.nodes r none; closed = n.fd ∷ rps.closed })
]

-- The loops of delRedis over the connections on one side: `follow` is the link that they take.
unfoldable pub free_chain : (follow : Redis → ℕ) (fuel r : ℕ) → Pool → Option Pool
free_chain follow zero r rps = none
free_chain follow (suc fuel) r rps = if r == 0 then some rps else elim (at rps r) [
  | none ↦ none
  | some n ↦ elim (free_redis r rps) [
    | none ↦ none
    | some rps' ↦ free_chain follow fuel (follow n) rps'
  ]
]

-- The first case of delRedis: the links around `rd` are closed.
abbrev pub unlink_redis : Redis → Pool → Option Pool
unlink_redis n rps =
    if n.prev == 0 then some (record rps { redises = n.next }) else elim (at rps n.prev) [
      | none ↦ none
      | some before ↦
          some (record rps {
            nodes = update rps.nodes n.prev (some (record before { next = n.next }));
          })
    ]

abbrev pub del_one : (rd : ℕ) → Redis → Pool → Option Pool
del_one rd n rps = elim (unlink_redis n rps) [ none ↦ none | some rps' ↦ free_redis rd rps' ]

abbrev pub del_after : (fuel : ℕ) → Redis → Pool → Option Pool
del_after fuel n rps = elim (free_chain (λ m. m.prev) fuel n.prev rps) [
  | none ↦ none
  | some rps' ↦ elim (free_chain (λ m. m.next) fuel n.next rps') [
    | none ↦ none
    | some rps'' ↦ some (record rps'' { redises = 0 })
  ]
]

abbrev pub del_all : (fuel rd : ℕ) → Redis → Pool → Option Pool
del_all fuel rd n rps = elim (free_redis rd rps) [ none ↦ none | some rps' ↦ del_after fuel n rps' ]

unfoldable pub del_redis : (fuel rd : ℕ) (all : Bool) → Pool → Option Pool
del_redis fuel rd all rps = if rd == 0 then some rps else elim (at rps rd) [
  | none ↦ none
  | some n ↦ if all then del_all fuel rd n rps else del_one rd n rps
]
