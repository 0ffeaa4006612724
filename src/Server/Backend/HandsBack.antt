-- ===== src/Server/Backend/HandsBack.antt =====
-- A status line of redis on its way through readR of src/net/server.c to the client.
use redis_pool.Base.{
  ℕ, ◌+◌, ◌-◌, ◌^◌, ◌≤◌, ◌<◌, ◌≡◌, ◌≢◌, ◌⊎◌, refl, sym, ap, ◌∙◌, subst, true, false, some, List, [],
  ◌∷◌, ◌++◌, arith, ◌==◌, length, length-append, append_nil, drop,
}
use redis_pool.Types.Memory.{in_place}
use redis_pool.Types.Buffer.{Buffer, per_iobuf_size, sub64}
use redis_pool.Types.Buffer.Content.{content}
use redis_pool.Types.Array.{Status, s_ok, BufferArray, stale, held}
use redis_pool.Types.Array.Append.{Added, capacity}
use redis_pool.Types.Array.Transfer.{MoveRun, mv_array_buff}
use redis_pool.Types.Array.Empties.{Emptied, mv_array_buff-Emptied}
use redis_pool.Client.{Client, nl}
use redis_pool.Client.Reply.{AlwaysGives}
use redis_pool.Client.Read.{Received, got, base_read, base_read-got}
use redis_pool.Multibulk.Line.{is_plain}
use redis_pool.Multibulk.Copy.{At}
use redis_pool.Multibulk.Forwarded.{Filling-held}
use redis_pool.Multibulk.Arrives.{IsIdle, At-received}
use redis_pool.Multibulk.StatusLine.{behind_line, process_redis-behind}
use redis_pool.Map.Hash.{Hash, hash_get, hash_remove}
use redis_pool.Map.Hash as Hash
use redis_pool.Pool.{Redis, Pool, put_redis, update}
use redis_pool.Server.{Peer, Server, done, World, set_at, key_of, again_behind}
use redis_pool.Server.Steps.{set_at_same}
use redis_pool.Server.Backend.{read_r}
use redis_pool.Server.Backend.Replies.{
  rested, ended, replied, end_read_r_lem, reply_to_lem, read_r_lem,
}

-- The connection `r` with the socket `fd` waits for one reply for the client, which has a place for it.
pub record IsAwaiting (w : World) (fd c r : ℕ) (p : Peer) (n : Redis) (t u : Hash) (s : Server)
    : Type 0 where
  pub client_is : ((c == 0) ≡ false) × (s.peers c ≡ some p)
  pub conn_is : ((r == 0) ≡ false) × (s.rps.nodes r ≡ some n)
  pub stays : (p.client.is_valid ≡ true) × (p.client.is_quit ≡ false)
  pub idle : IsIdle (s.conns r)
  pub sent_none : (s.conns r).cmd_num ≡ 0
  pub awaits : (s.conns r).r_num ≡ 1
  pub not_held : (s.conns r).is_block ≡ false
  pub room :
      (p.client.middle.wpos < p.client.middle.size) × (p.client.middle.wpos < p.client.middle.max)
  pub size : p.client.middle.max < 2 ^ 64 - 1
  pub place_set : p.client.middle.buff p.client.middle.wpos ≢ stale
  pub joined : hash_get w.fuel (key_of fd) s.r_to_c ≡ Hash.done c s.r_to_c
  pub conn_entry : (v : ℕ) × (hash_remove w.room w.fuel (key_of n.fd) s.r_to_c ≡ Hash.done v u)
  pub client_entry : (v : ℕ) × (hash_remove w.room w.fuel (key_of p.fd) s.c_to_r ≡ Hash.done v t)

-- The line is the last one that the client gets, and the connection is the first of the pool.
pub record HandedBack (c r : ℕ) (p : Peer) (t u : Hash) (line : List ℕ) (s s' : Server)
    : Type 0 where
  pub answered :
      (m : BufferArray) × (s'.peers c ≡ some (record p { client = record p.client { middle = m } }))
      × ((b : Buffer) × (m.buff p.client.middle.wpos ≡ held b) × (content b ≡ line))
      × (m.wpos ≡ p.client.middle.wpos + 1)
      × ((j : ℕ) → j < p.client.middle.wpos → m.buff j ≡ p.client.middle.buff j)
  pub awaits_none : (s'.conns r).r_num ≡ 0
  pub tables : (s'.r_to_c ≡ u) × (s'.c_to_r ≡ t)
  pub back : s'.rps.redises ≡ r
  pub others : (k : ℕ) → k ≢ c → s'.peers k ≡ s.peers k

-- The pool behind putRedis.
abbrev put_back : ℕ → Redis → Pool → Pool
put_back r n rps = record rps {
  nodes = update rps.nodes r (some (record n { prev = 0; next = rps.redises }));
  redises = r;
}

put_redis-back :
    (r : ℕ) (n : Redis) (rps : Pool)
    → (r == 0) ≡ false
    → rps.nodes r ≡ some n
    → put_redis r rps ≡ some (put_back r n rps)
unfolding put_redis
put_redis-back r n rps r_ne node = ground arith

module _ (w : World) (gives : AlwaysGives w.parser.os) (g : ℕ → ℕ) (fd c r : ℕ) (p : Peer)
    (n : Redis) (t u : Hash) (s : Server) (h : IsAwaiting w fd c r p n t u s)
    (fresh_errno : w.again ≡ false) (block : w.block ≡ in_place g) (x : ℕ) (xs : List ℕ)
    (kind : (x ≡ b'+') ⊎ (x ≡ b'-')) (plain : is_plain (x ∷ xs) ≡ true)
    (comes : w.recv ≡ got ((x ∷ xs) ++ nl)) (short : length ((x ∷ xs) ++ nl) ≤ per_iobuf_size) where
  abbrev line : List ℕ
  line = (x ∷ xs) ++ nl

  -- baseRead of the connection.
  abbrev came : Status × Client
  came = base_read (in_place g) (got line) (s.conns r)

  module _ (received : Received line (s.conns r) came) where
    here : At came.1 [] (line ++ []) (drop came.1.cmd.wpos came.1.cmd.buf)
    here =
        subst (λ b. At came.1 [] b (drop came.1.cmd.wpos came.1.cmd.buf)) (sym (append_nil line))
          (At-received (s.conns r) h.idle line came received)

    module _ (a : BufferArray)
        (added : Added came.1.cmd_num line came.1.cmds (record a { pendding = false })) where
      abbrev whole : BufferArray
      whole = record a { pendding = false }

      none_sent : came.1.cmd_num ≡ 0
      none_sent = ap (λ y. y.cmd_num) received.rest_kept ∙ h.sent_none

      one_line : (whole.wpos ≡ 1) × ((b : Buffer) × (whole.buff 0 ≡ held b) × (content b ≡ line))
      one_line =
          let (wpos, (b, at, is)) =
            Filling-held whole came.1.cmd_num line added.filling
              (omega (arith, length-append (x ∷ xs) nl)) in
          (omega (arith, wpos, none_sent), (b, ap whole.buff (sym none_sent) ∙ at, is))

      has_place : (0 < whole.size) × (0 < whole.max)
      has_place = (
        omega
            (arith, added.size_kept, ap (λ y. y.cmds.size) received.rest_kept, h.idle.place.inside),
        omega (arith, added.max_kept, ap (λ y. y.cmds.max) received.rest_kept, h.idle.place.below),
      )

      moves :
          (m : BufferArray) × (e : BufferArray) × (mv_array_buff w.slots p.client.middle whole true
            ≡ MoveRun.ends s_ok m e)
          × Emptied p.client.middle whole m e
      moves =
          mv_array_buff-Emptied w.slots p.client.middle whole refl (omega (arith, one_line.0))
            (omega (arith, one_line.0, has_place.0)) (omega (arith, one_line.0, has_place.1))
            (omega (arith, one_line.0, h.room.0)) (omega (arith, one_line.0, h.room.1)) h.size
            (λ j l.
              let place : p.client.middle.wpos + j ≡ p.client.middle.wpos =
                omega (arith, one_line.0, l) in
              subst (λ k. p.client.middle.buff k ≢ stale) (sym place) h.place_set)

    one_reply : came.1.r_num ≡ 1
    one_reply = ap (λ y. y.r_num) received.rest_kept ∙ h.awaits

    no_multi : came.1.multi_bulk_len ≡ 0
    no_multi = ap (λ y. y.multi_bulk_len) received.rest_kept ∙ h.idle.waiting.no_multi

    fits : length {A = ℕ} [] + length line ≤ capacity
    fits = omega (arith, short)

    -- The connection when the line is copied.
    abbrev reply : BufferArray → Client
    reply a =
        behind_line w.parser gives came.1 [] x xs [] (drop came.1.cmd.wpos came.1.cmd.buf) no_multi
          kind plain here fits a

    module _ (a m e : BufferArray)
        (added : Added came.1.cmd_num line came.1.cmds (record a { pendding = false }))
        (em : Emptied p.client.middle (record a { pendding = false }) m e) where
      abbrev last : Server
      last =
          ended w fd c r h.client_is.0 h.conn_is.0 n t u h.conn_entry.0 h.client_entry.0
            (put_back r n s.rps) (record (reply a) { cmds = e })
            (replied w fd c r h.client_is.0 h.conn_is.0 n t u h.conn_entry.0 h.client_entry.0
              (put_back r n s.rps) p (reply a) m e
              (record s { conns = set_at (set_at s.conns r came.1) r (reply a) }))

      last-HandedBack : HandedBack c r p t u line s last
      last-HandedBack =
          let (wpos, (b, at, is)) = one_line a added in
          let place : p.client.middle.wpos + 0 ≡ p.client.middle.wpos = omega arith in
          record {
            answered = (
              m,
              set_at_same s.peers c (some (record p { client = record p.client { middle = m } })),
              (b, ap m.buff (sym place) ∙ em.moved 0 (omega (arith, wpos)) ∙ at, is),
              omega (arith, em.counted, wpos),
              em.dest_kept,
            );
            awaits_none =
                ap (λ y. y.r_num)
                  (set_at_same
                    (set_at (set_at (set_at s.conns r came.1) r (reply a)) r
                      (record (reply a) { cmds = e }))
                    r (rested (record (reply a) { cmds = e })))
                ∙ ap (λ k. sub64 k 1) one_reply;
            tables = (refl, refl);
            back = refl;
            others = λ k ne. ground (arith, ne);
          }

  -- For a connection that waits for one reply and nothing else, joined with a client that has a place for
  -- it and does not quit: when recv gives one whole line of at most 16384 bytes that begins with `+` or
  -- `-`, errno is not EAGAIN, and the allocator gives memory and extends the block of `cmd` in its place,
  -- then readR comes to its end. The last buffer for the client is exactly this line, behind those that
  -- it had; the connection waits for no reply, is the first of the pool, and has left both tables; the
  -- client is otherwise as before, and so is every other client.
  pub read_r-hands_back :
      (s' : Server) × (read_r w fd r s ≡ done tt s') × HandedBack c r p t u line s s'
  read_r-hands_back =
      let received =
        base_read-got g line (s.conns r) (omega (arith, short)) h.idle.valid
          (omega (arith, h.idle.unread_none.1, short)) in
      let (a, parsed, added) =
        process_redis-behind w.parser gives came.1 [] x xs [] (drop came.1.cmd.wpos came.1.cmd.buf)
          (no_multi received) kind plain (here received) (fits received) (one_reply received) in
      let (m, e, moved, em) = moves received a added in
      let y = reply received a in
      let z : Client = record y { cmds = e } in
      let back = put_back r n s.rps in
      let s1 : Server = record s { conns = set_at s.conns r came.1 } in
      let s2 : Server = record s1 { conns = set_at s1.conns r y } in
      let q : Peer = record p { client = record p.client { middle = m } } in
      let s3 : Server = record s2 {
        peers = set_at s2.peers c (some q);
        conns = set_at s2.conns r z;
      } in
      let reads : base_read w.block w.recv (s.conns r) ≡ (s_ok, came.1) =
        ap (λ b. base_read b w.recv (s.conns r)) block
        ∙ ap (λ v. base_read (in_place g) v (s.conns r)) comes
        ∙ ap (λ st. (st, came.1)) received.status in
      let errno : again_behind w.again w.recv ≡ false =
        ap (again_behind w.again) comes ∙ fresh_errno in
      let free : z.is_block ≡ false = ap (λ k. k.is_block) received.rest_kept ∙ h.not_held in
      let all : z.r_num ≡ 0 = ap (λ k. sub64 k 1) (one_reply received) in
      (
        last received a m e added em,
        read_r_lem w fd c r h.client_is.0 h.conn_is.0 n t u h.conn_entry.0 h.client_entry.0 back s p
              came.1 h.client_is.1 h.conn_is.1 h.joined h.stays.0 h.stays.1 reads errno
            ∙ reply_to_lem w fd c r h.client_is.0 h.conn_is.0 n t u h.conn_entry.0 h.client_entry.0
                back s1 p came.1 y m e (set_at_same s.conns r came.1) h.client_is.1 h.conn_is.1
                parsed moved
            ∙ end_read_r_lem w fd c r h.client_is.0 h.conn_is.0 n t u h.conn_entry.0
                h.client_entry.0 back s3 z q (set_at_same s2.conns r z)
                (set_at_same s2.peers c (some q)) h.conn_is.1 free all h.conn_entry.1
                h.client_entry.1 (put_redis-back r n s.rps h.conn_is.0 h.conn_is.1),
        last-HandedBack received a m e added em,
      )
