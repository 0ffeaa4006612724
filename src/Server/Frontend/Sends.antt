-- ===== src/Server/Frontend/Sends.antt =====
-- readC of src/net/server.c as a step of the state, where a whole command comes and the pool has an idle
-- connection.
use redis_pool.Base.{
  ℕ, suc, ◌+◌, ◌-◌, ◌%◌, ◌^◌, ◌<◌, ◌≡◌, ◌≢◌, refl, ap, ◌∙◌, Bool, true, false, some, List, arith,
  ◌==◌, if◌then◌else◌,
}
use redis_pool.Types.Memory.{in_place}
use redis_pool.Types.Array.{Status, s_ok, BufferArray, stale}
use redis_pool.Types.Array.Transfer.{MoveRun, mv_array_buff}
use redis_pool.Client.{Client, go}
use redis_pool.Client.Reply.{AlwaysGives}
use redis_pool.Client.Read.{Received, got, base_read}
use redis_pool.Multibulk.{process_client}
use redis_pool.Multibulk.Arrives.{IsIdle}
use redis_pool.Map.Hash.{Hash, hash_put}
use redis_pool.Map.Hash as Hash
use redis_pool.Pool.{Redis, Pool, get_redis}
use redis_pool.Server.{Peer, Server, done, ◌>>=◌, World, set_at, key_of, conn_at, again_behind}
use redis_pool.Server.Steps.{set_at_same, at-live}
use redis_pool.Server.Frontend.{count_cmds, enter, enter_both, send_to, with_conn, read_c}

-- The state behind the entries in the tables and the count.
abbrev pub with_counts : (c r : ℕ) → Peer → Server → Server
with_counts c r p s = record s {
  conns = set_at s.conns r (record (s.conns r) {
    r_num = ((s.conns r).r_num + p.client.cmd_num) % 2 ^ 64;
    is_block = p.client.is_block;
  });
  peers = set_at s.peers c (some (record p { client = record p.client { cmd_num = 0 } }));
}

abbrev pub entered : Bool → (t u : Hash) → Server → Server
entered is_block t u s = record s {
  c_to_r = if is_block then s.c_to_r else t;
  r_to_c = if is_block then s.r_to_c else u;
}

-- The state behind the move of the commands.
abbrev pub with_moved : (c r : ℕ) → Peer → (d a : BufferArray) → Server → Server
with_moved c r p d a s = record s {
  conns = set_at s.conns r (record (s.conns r) { middle = d });
  peers = set_at s.peers c (some (record p { client = record p.client { cmds = a } }));
}

-- The state behind the whole of `send_to`, where the parser leaves `x` and mvArrayBuff `d` and `a`.
abbrev pub sent_on : (c r : ℕ) (t u : Hash) → Peer → Client → (d a : BufferArray) → Server → Server
sent_on c r t u p x d a s =
    with_counts c r (record p { client = record x { cmds = a } })
      (entered x.is_block t u (with_moved c r (record p { client = x }) d a s))

module _ (w : World) (fd c r : ℕ) (c_ne : (c == 0) ≡ false) (r_ne : (r == 0) ≡ false) (n : Redis)
    (t u : Hash) (x y : ℕ) (keys : w.keys_ok ≡ true) where
  enter_lem :
      (b : Bool) (s : Server) (p : Peer)
      → s.peers c ≡ some p
      → s.rps.nodes r ≡ some n
      → hash_put w.room w.fuel (key_of fd) r s.c_to_r ≡ Hash.done x t
      → hash_put w.room w.fuel (key_of n.fd) c s.r_to_c ≡ Hash.done y u
      → enter w fd c r b s ≡ done tt (with_counts c r p (entered b t u s))
  enter_lem true s p peer node puts puts' =
      rw (enter, count_cmds, c_ne, peer) (rw (◌>>=◌, conn_at, at-live s r n r_ne node) refl)
  enter_lem false s p peer node puts puts' = ground arith

  enter_both_lem :
      (s : Server) (p : Peer)
      → s.peers c ≡ some p
      → s.rps.nodes r ≡ some n
      → hash_put w.room w.fuel (key_of fd) r s.c_to_r ≡ Hash.done x t
      → hash_put w.room w.fuel (key_of n.fd) c s.r_to_c ≡ Hash.done y u
      → enter_both w fd c r s ≡ done tt (with_counts c r p (entered p.client.is_block t u s))
  unfolding enter_both
  enter_both_lem s p peer node puts puts' =
      rw (c_ne, peer) (enter_lem p.client.is_block s p peer node puts puts')

  send_to_lem :
      (s : Server) (p : Peer) (x' : Client) (d a : BufferArray)
      → s.peers c ≡ some p
      → s.rps.nodes r ≡ some n
      → hash_put w.room w.fuel (key_of fd) r s.c_to_r ≡ Hash.done x t
      → hash_put w.room w.fuel (key_of n.fd) c s.r_to_c ≡ Hash.done y u
      → process_client w.parser w.fuel p.client ≡ go tt x'
      → mv_array_buff w.slots (s.conns r).middle x'.cmds true ≡ MoveRun.ends s_ok d a
      → send_to w fd c r s ≡ done tt (sent_on c r t u p x' d a s)
  unfolding send_to
  send_to_lem s p x' d a peer node puts puts' parsed moves =
      let q : Peer = record p { client = x' } in
      let s1 : Server = record s { peers = set_at s.peers c (some q) } in
      let live : s1.peers c ≡ some q = set_at_same s.peers c (some q) in
      ground (
        arith,
        set_at_same s1.peers c (some (record q { client = record x' { cmds = a } })),
        enter_both_lem (with_moved c r q d a s1) (record q { client = record x' { cmds = a } }),
      )

-- The pool without its first idle connection.
abbrev pub taken : Redis → Pool → Pool
taken n rps = record rps {
  redises = n.next;
  avalid_num = rps.avalid_num - 1;
  active_num = (rps.active_num + 1) % 2 ^ 32;
}

get_redis-idle :
    (w : World) (rps : Pool) (r : ℕ) (n : Redis)
    → 0 < rps.avalid_num
    → rps.redises ≡ r
    → (r == 0) ≡ false
    → rps.nodes r ≡ some n
    → get_redis w.dial rps ≡ some (r, taken n rps)
unfolding get_redis
get_redis-idle w rps r n idle first r_ne node = ground arith

-- A client with the socket `fd` that waits for a command, and a connection of the pool for it, whose
-- commands have a place for one more, with entries for both in the tables.
pub record IsReady (w : World) (fd c r : ℕ) (p : Peer) (n : Redis) (t u : Hash) (s : Server)
    : Type 0 where
  pub client_is : ((c == 0) ≡ false) × (s.peers c ≡ some p)
  pub conn_is : ((r == 0) ≡ false) × (s.rps.nodes r ≡ some n)
  pub first : s.rps.redises ≡ r
  pub avalid : 0 < s.rps.avalid_num
  pub idle : IsIdle p.client
  pub sent_all : p.client.cmd_num ≡ 0
  pub stays : (p.client.is_valid ≡ true) × (p.client.is_quit ≡ false)
  pub not_held : p.client.is_block ≡ false
  pub room :
      ((s.conns r).middle.wpos < (s.conns r).middle.size)
      × ((s.conns r).middle.wpos < (s.conns r).middle.max)
  pub size : (s.conns r).middle.max < 2 ^ 64 - 1
  pub place_set : (s.conns r).middle.buff (s.conns r).middle.wpos ≢ stale
  pub client_entry : (x : ℕ) × (hash_put w.room w.fuel (key_of fd) r s.c_to_r ≡ Hash.done x t)
  pub conn_entry : (y : ℕ) × (hash_put w.room w.fuel (key_of n.fd) c s.r_to_c ≡ Hash.done y u)

module _ (w : World) (env_gives : AlwaysGives w.parser.os) (g : ℕ → ℕ) (fd c r : ℕ) (p : Peer)
    (n : Redis) (t u : Hash) (s : Server) (ready : IsReady w fd c r p n t u s)
    (keys : w.keys_ok ≡ true) (fresh_errno : w.again ≡ false) (block : w.block ≡ in_place g)
    (text : List ℕ) (comes : w.recv ≡ got text) (f : ℕ) (fuel : w.fuel ≡ suc (suc f)) where
  abbrev pub read : Status × Client
  read = base_read (in_place g) (got text) p.client

  pub read_c-sends :
      (x' : Client) (d a : BufferArray)
      → Received text p.client read
      → process_client w.parser (suc (suc f)) read.1 ≡ go tt x'
      → mv_array_buff w.slots (s.conns r).middle x'.cmds true ≡ MoveRun.ends s_ok d a
      → read_c w fd c s
        ≡ done tt (
            sent_on c r t u
              (record p { client = read.1 })
              x'
              d
              a
              (record s {
                rps = taken n s.rps;
                peers = set_at s.peers c (some (record p { client = read.1 }));
              }))
  unfolding with_conn
  read_c-sends x' d a came parsed moves =
      let q : Peer = record p { client = read.1 } in
      let s1 : Server = record s { rps = taken n s.rps; peers = set_at s.peers c (some q) } in
      let kept = came.rest_kept in
      let valid : read.1.is_valid ≡ true = ap (λ x. x.is_valid) kept ∙ ready.stays.0 in
      let stays : read.1.is_quit ≡ false = ap (λ x. x.is_quit) kept ∙ ready.stays.1 in
      let not_held : read.1.is_block ≡ false = ap (λ x. x.is_block) kept ∙ ready.not_held in
      let borrowed =
        get_redis-idle w s.rps r n ready.avalid ready.first ready.conn_is.0 ready.conn_is.1 in
      let sends =
        send_to_lem w fd c r ready.client_is.0 ready.conn_is.0 n t u ready.client_entry.0
          ready.conn_entry.0 keys s1 q x' d a (set_at_same s.peers c (some q)) ready.conn_is.1
          ready.client_entry.1 ready.conn_entry.1
          (ap (λ k. process_client w.parser k read.1) fuel ∙ parsed) moves in
      let s2 : Server = record s { peers = set_at s.peers c (some q) } in
      let live : s2.peers c ≡ some q = set_at_same s.peers c (some q) in
      let reads : base_read w.block w.recv p.client ≡ read =
        ap (λ b. base_read b w.recv p.client) block
        ∙ ap (λ v. base_read (in_place g) v p.client) comes in
      let errno : again_behind w.again w.recv ≡ false =
        ap (again_behind w.again) comes ∙ fresh_errno in
      let with : with_conn w fd c s2 ≡ send_to w fd c r s1 = ground (arith) in
      let here : read_c w fd c s ≡ with_conn w fd c s2 = unfold read_c in (ground arith) in
      here ∙ with ∙ sends
