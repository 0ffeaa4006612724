-- ===== src/Server/Backend/Replies.antt =====
-- A reply on its way through readR of src/net/server.c: from recv to the client, and the connection back to
-- the pool.
use redis_pool.Base.{ℕ, ◌+◌, ◌≡◌, true, false, some, arith, ◌==◌}
use redis_pool.Types.Buffer.{srange_buff}
use redis_pool.Types.Array.{s_ok, BufferArray}
use redis_pool.Types.Array.Transfer.{MoveRun, mv_array_buff}
use redis_pool.Client.{Client, go}
use redis_pool.Client.Read.{base_read}
use redis_pool.Multibulk.Redis.{process_redis}
use redis_pool.Map.Hash.{Hash, hash_get, hash_remove}
use redis_pool.Map.Hash as Hash
use redis_pool.Pool.{Redis, Pool, put_redis}
use redis_pool.Server.{Peer, Server, done, World, set_at, key_of, again_behind}
use redis_pool.Server.Steps.{set_at_same}
use redis_pool.Server.Backend.{reply_to, end_read_r, read_r}

-- The connection behind srangeBuff.
abbrev pub rested : Client → Client
rested y =
    let moved = srange_buff y.cmd y.cmd.rpos in
    record y { cmd = moved.buffer; stray = y.stray + moved.stray; cmd_num = 0 }

module _ (w : World) (fd c r : ℕ) (c_ne : (c == 0) ≡ false) (r_ne : (r == 0) ≡ false) (n : Redis)
    (t u : Hash) (v v' : ℕ) (rps : Pool) where
  abbrev pub ended : Client → Server → Server
  ended y s = record s { conns = set_at s.conns r (rested y); r_to_c = u; c_to_r = t; rps = rps }

  pub end_read_r_lem :
      (s : Server) (y : Client) (q : Peer)
      → s.conns r ≡ y
      → s.peers c ≡ some q
      → s.rps.nodes r ≡ some n
      → y.is_block ≡ false
      → y.r_num ≡ 0
      → hash_remove w.room w.fuel (key_of n.fd) s.r_to_c ≡ Hash.done v u
      → hash_remove w.room w.fuel (key_of q.fd) s.c_to_r ≡ Hash.done v' t
      → put_redis r s.rps ≡ some rps
      → end_read_r w r c s ≡ done tt (ended y s)
  unfolding end_read_r
  end_read_r_lem s y q conn peer node free all from_r from_c back = ground arith

  -- The state behind the move of the replies.
  abbrev pub replied : Peer → Client → (m e : BufferArray) → Server → Server
  replied p x m e s = record s {
    peers = set_at s.peers c (some (record p { client = record p.client { middle = m } }));
    conns = set_at s.conns r (record x { cmds = e });
  }

  pub reply_to_lem :
      (s : Server) (p : Peer) (d x : Client) (m e : BufferArray)
      → s.conns r ≡ d
      → s.peers c ≡ some p
      → s.rps.nodes r ≡ some n
      → process_redis w.parser d ≡ go tt x
      → mv_array_buff w.slots p.client.middle x.cmds true ≡ MoveRun.ends s_ok m e
      → reply_to w r c fd s
        ≡ end_read_r w r c (replied p x m e (record s { conns = set_at s.conns r x }))
  reply_to_lem s p d x m e conn peer node parsed moves =
      let same = set_at_same s.conns r x in ground arith

  pub read_r_lem :
      (s : Server) (p : Peer) (d : Client)
      → s.peers c ≡ some p
      → s.rps.nodes r ≡ some n
      → hash_get w.fuel (key_of fd) s.r_to_c ≡ Hash.done c s.r_to_c
      → p.client.is_valid ≡ true
      → p.client.is_quit ≡ false
      → base_read w.block w.recv (s.conns r) ≡ (s_ok, d)
      → again_behind w.again w.recv ≡ false
      → read_r w fd r s ≡ reply_to w r c fd (record s { conns = set_at s.conns r d })
  unfolding read_r
  read_r_lem s p d peer node entry valid stays reads errno = ground arith
