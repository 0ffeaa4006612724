-- ===== src/Server/Steps.antt =====
-- Lemmas on the steps of the callbacks of src/net/server.c.
use redis_pool.Base.{ℕ, ◌≡◌, refl, true, false, some, arith, ◌==◌}
use redis_pool.Pool.{Redis, at}
use redis_pool.Client.{Client}
use redis_pool.Server.{Peer, Server, done, set_at, peer_at, conn_at, conn_fd, on_peer}

pub set_at_same : {A : Type 0} (f : ℕ → A) (p : ℕ) (a : A) → set_at f p a p ≡ a
set_at_same f p a = let same : (p == p) ≡ true = ground arith in rw same refl

-- A pointer to a live struct.
module _ (s : Server) (c : ℕ) (p : Peer) (c_ne : (c == 0) ≡ false) (live : s.peers c ≡ some p) where
  pub peer_at-live : peer_at c s ≡ done p s
  peer_at-live = rw (c_ne, live) refl

  pub on_peer-live :
      (f : Client → Client)
      → on_peer c f s
        ≡ done tt (record s { peers = set_at s.peers c (some (record p { client = f p.client })) })
  on_peer-live f = rw (on_peer, c_ne, live) refl

module _ (s : Server) (r : ℕ) (n : Redis) (r_ne : (r == 0) ≡ false)
    (live : s.rps.nodes r ≡ some n) where
  pub at-live : at s.rps r ≡ some n
  at-live = rw (r_ne, live) refl

  pub conn_at-live : conn_at r s ≡ done (s.conns r) s
  conn_at-live = rw (conn_at, at-live) refl

  pub conn_fd-live : conn_fd r s ≡ done n.fd s
  conn_fd-live = rw (conn_fd, at-live) refl
