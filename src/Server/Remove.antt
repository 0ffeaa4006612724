-- ===== src/Server/Remove.antt =====
-- The ends of clients and connections in src/net/server.c, and delRedis, putRedis and freeClient as
-- actions on the worker.
use redis_pool.Base.{
  ℕ, ◌+◌, ◌^◌, false, not, Option, none, some, ◌∷◌, ◌||◌, ltb, ◌==◌, if◌then◌else◌,
}
use redis_pool.Map.Tree.Store.{Tree}
use redis_pool.Map.Tree.Store as Store
use redis_pool.Map.Tree.Ops.{tree_remove_and_free}
use redis_pool.Pool.{Pool, get_redis, put_redis, del_redis}
use redis_pool.Server.{
  done, fault, exits, out_of_fuel, M, ◌>>=◌, ◌>>◌, pure, gets, modify, World, set_at, peer_at,
  conn_fd, drop_c_to_r, drop_r_to_c,
}

abbrev in_pool : Option Pool → M (Unit {0})
in_pool none = λ s. fault
in_pool (some rps) = modify (λ s. record s { rps = rps })

abbrev pub give_back : (r : ℕ) → M (Unit {0})
give_back r s = in_pool (put_redis r s.rps) s

abbrev pub del : World → (r : ℕ) → M (Unit {0})
del w r s = in_pool (del_redis w.fuel r false s.rps) s

-- getRedis. A new connection has a new client.
abbrev pub borrow : World → M ℕ
borrow w s = elim (get_redis w.dial s.rps) [
  | none ↦ fault
  | some (r, rps) ↦ done r (record s {
    rps = rps;
    conns = if (r == 0) || ltb 0 s.rps.avalid_num then s.conns else set_at s.conns r w.fresh;
  })
]

-- freeClient. The socket is closed if it is not 0.
unfoldable pub free_client : (c : ℕ) → M (Unit {0})
free_client c = if c == 0 then pure tt else do
  p ← peer_at c
  modify (λ s. record s {
    peers = set_at s.peers c none;
    rps = record s.rps { closed = if p.fd == 0 then s.rps.closed else p.fd ∷ s.rps.closed };
  })

abbrev forget_r : World → Option ℕ → M (Unit {0})
forget_r w none = pure tt
forget_r w (some fd) = do v ← drop_r_to_c w fd; pure tt

abbrev forget_c : World → Option ℕ → M (Unit {0})
forget_c w none = pure tt
forget_c w (some fd) = do v ← drop_c_to_r w fd; pure tt

-- A pointer that is NULL is 0, and a key that is NULL is `none`.
unfoldable pub remove_rc : World → (r : ℕ) (rk : Option ℕ) (c : ℕ) (ck : Option ℕ) → M (Unit {0})
unfolding free_client
remove_rc w r rk c ck = do forget_r w rk; forget_c w ck; del w r; free_client c

-- Behind the tests of removeByR, with the value that hashRemove has given.
abbrev remove_peer_of : World → (c : ℕ) → M (Unit {0})
remove_peer_of w c =
    if c == 0 then pure tt else do p ← peer_at c; forget_c w (some p.fd); free_client c

unfoldable pub remove_by_r : World → (r : ℕ) (rk : Option ℕ) → M (Unit {0})
unfolding free_client
remove_by_r w r rk = do
  del w r
  elim rk [ none ↦ pure tt | some fd ↦ do c ← drop_r_to_c w fd; remove_peer_of w c ]

abbrev remove_conn_of : World → (r : ℕ) → M (Unit {0})
remove_conn_of w r = if r == 0 then pure tt else do fd ← conn_fd r; forget_r w (some fd); del w r

unfoldable pub remove_by_c : World → (c : ℕ) (ck : Option ℕ) → M (Unit {0})
unfolding free_client
remove_by_c w c ck = do
  free_client c
  elim ck [ none ↦ pure tt | some fd ↦ do r ← drop_c_to_r w fd; remove_conn_of w r ]

abbrev in_clients : Store.Run (Unit {0}) → M (Unit {0})
in_clients (Store.done u t) = modify (λ s. record s { clients = t })
in_clients Store.fault = λ s. fault
in_clients Store.out_of_fuel = λ s. out_of_fuel

-- The key of a socket, by its distance from INT_MIN.
abbrev pub key_of_fd : (fd : ℕ) → ℕ
key_of_fd fd = fd + 2 ^ 31

-- The worker exits behind its last client when it has been told to.
unfoldable pub deal_remove_client : World → (fd : ℕ) → M (Unit {0})
deal_remove_client w fd = do
  s ← gets (λ s. s)
  in_clients (tree_remove_and_free w.fuel (key_of_fd fd) s.clients)
  left ← gets (λ s. s.clients.total)
  if ltb 0 left then pure tt else (if not s.is_exit then pure tt else λ s. exits)
