-- ===== src/Server/Frontend/HandsOn.antt =====
-- A command on its way through readC of src/net/server.c: from recv to the connection of the pool.
use redis_pool.Base.{
  ℕ, Option, suc, ◌+◌, ◌%◌, ◌^◌, ◌≤◌, ◌<◌, ◌≡◌, ◌≢◌, refl, sym, ap, ◌∙◌, true, false, some, List,
  ◌∷◌, arith, if◌then◌else◌, length, subst,
}
use redis_pool.Base.Int.{pos}
use redis_pool.Types.Memory.{in_place}
use redis_pool.Types.Number.Laws.{integer_of}
use redis_pool.Types.Buffer.{Buffer, per_iobuf_size}
use redis_pool.Types.Buffer.Content.{content}
use redis_pool.Types.Array.{Status, s_ok, BufferArray, stale, held}
use redis_pool.Types.Array.Transfer.{MoveRun, mv_array_buff}
use redis_pool.Types.Array.Empties.{Emptied, mv_array_buff-Emptied}
use redis_pool.Client.{Client}
use redis_pool.Client.Reply.{AlwaysGives}
use redis_pool.Client.Read.{Received, got, base_read}
use redis_pool.Multibulk.Line.{is_plain}
use redis_pool.Multibulk.Name.{IsCommand}
use redis_pool.Multibulk.Command.{Bulk, AreBulks}
use redis_pool.Multibulk.Forwarded.{Forwarded}
use redis_pool.Multibulk.Forward.{command_text}
use redis_pool.Multibulk.Arrives.{IsIdle, base_read-forwards}
use redis_pool.Map.Hash.{Hash}
use redis_pool.Pool.{Redis}
use redis_pool.Server.{Peer, Server, done, World, set_at}
use redis_pool.Server.Steps.{set_at_same}
use redis_pool.Server.Frontend.{read_c}
use redis_pool.Server.Frontend.Sends.{sent_on, taken, IsReady, read_c-sends}

-- The command is the last one that the connection has to send, and the client waits for the next.
pub record HandedOn (c r : ℕ) (n : Redis) (t u : Hash) (text : List ℕ) (s s' : Server)
    : Type 0 where
  pub queued :
      (b : Buffer) × ((s'.conns r).middle.buff (s.conns r).middle.wpos ≡ held b)
      × (content b ≡ text)
  pub queue_kept :
      (j : ℕ) → j < (s.conns r).middle.wpos → (s'.conns r).middle.buff j ≡ (s.conns r).middle.buff j
  pub one_more : (s'.conns r).middle.wpos ≡ (s.conns r).middle.wpos + 1
  pub awaits : (s'.conns r).r_num ≡ ((s.conns r).r_num + 1) % 2 ^ 64
  pub client :
      (p : Peer) × (s'.peers c ≡ some p)
      × IsIdle p.client
      × (p.client.cmd_num ≡ 0)
      × ((s'.conns r).is_block ≡ p.client.is_block)
  pub entries :
      (s'.c_to_r ≡ (if (s'.conns r).is_block then s.c_to_r else t))
      × (s'.r_to_c ≡ (if (s'.conns r).is_block then s.r_to_c else u))
  pub borrowed : s'.rps ≡ taken n s.rps
  pub others : (k : ℕ) → k ≢ c → s'.peers k ≡ s.peers k

module _ (w : World) (env_gives : AlwaysGives w.parser.os) (g : ℕ → ℕ) (fd c r : ℕ) (p : Peer)
    (n : Redis) (t u : Hash) (s : Server) (ready : IsReady w fd c r p n t u s)
    (keys : w.keys_ok ≡ true) (fresh_errno : w.again ≡ false) (block : w.block ≡ in_place g)
    (digits : List ℕ) (b : Bulk) (bs : List Bulk)
    (comes : w.recv ≡ got (command_text digits (b ∷ bs))) (f : ℕ)
    (fuel : w.fuel ≡ suc (suc f)) where
  abbrev text : List ℕ
  text = command_text digits (b ∷ bs)

  abbrev came : Status × Client
  came = base_read (in_place g) (got text) p.client

  module _ (x : Client) (received : Received text p.client came)
      (forwarded : Forwarded came.1 x text) where
    kept_num : came.1.cmd_num ≡ 0
    kept_num = ap (λ y. y.cmd_num) received.rest_kept ∙ ready.sent_all

    one_command : x.cmds.wpos ≡ 1
    one_command = forwarded.one_more ∙ forwarded.next ∙ ap (λ k. k + 1) kept_num

    room_kept : (x.cmds.max ≡ p.client.cmds.max) × (x.cmds.size ≡ p.client.cmds.size)
    room_kept = (
      forwarded.room_kept.0 ∙ ap (λ y. y.cmds.max) received.rest_kept,
      forwarded.room_kept.1 ∙ ap (λ y. y.cmds.size) received.rest_kept,
    )

    has_place : (0 < x.cmds.size) × (0 < x.cmds.max)
    has_place = (
      omega (arith, room_kept.1, ready.idle.place.inside),
      omega (arith, room_kept.0, ready.idle.place.below),
    )

    moves :
        (d : BufferArray) × (a : BufferArray) × (mv_array_buff w.slots
            (s.conns r).middle
            x.cmds
            true
          ≡ MoveRun.ends s_ok d a)
        × Emptied (s.conns r).middle x.cmds d a
    moves =
        mv_array_buff-Emptied w.slots (s.conns r).middle x.cmds forwarded.complete
          (omega (arith, one_command)) (omega (arith, one_command, has_place.0))
          (omega (arith, one_command, has_place.1)) (omega (arith, one_command, ready.room.0))
          (omega (arith, one_command, ready.room.1)) ready.size
          (λ j l.
            let place : (s.conns r).middle.wpos + j ≡ (s.conns r).middle.wpos =
              omega (arith, one_command, l) in
            subst (λ k. (s.conns r).middle.buff k ≢ stale) (sym place) ready.place_set)

    module _ (d a : BufferArray) (e : Emptied (s.conns r).middle x.cmds d a) where
      after-IsIdle : IsIdle (record x { cmds = a; cmd_num = 0 })
      after-IsIdle = record {
        waiting = record {
          no_multi = forwarded.waiting.no_multi;
          no_bulk = forwarded.waiting.no_bulk;
          no_arg = forwarded.waiting.no_arg;
          size = omega (arith, e.room_kept.0, forwarded.waiting.size);
        };
        unread_none = forwarded.emptied;
        valid = forwarded.valid;
        place = record {
          inside = omega (arith, e.room_kept.1, has_place.0);
          below = omega (arith, e.room_kept.0, has_place.1);
        };
        last = e.none_left;
        no_buffer = e.places_null 0 (omega (arith, one_command));
      }

      queued-text : (y : Buffer) × (d.buff (s.conns r).middle.wpos ≡ held y) × (content y ≡ text)
      queued-text =
          let (y, at, is) = forwarded.copied in
          let here : (s.conns r).middle.wpos ≡ (s.conns r).middle.wpos + 0 = omega arith in
          let first : 0 ≡ came.1.cmd_num = sym kept_num in
          (
            y,
            ap d.buff here ∙ e.moved 0 (omega (arith, one_command)) ∙ ap x.cmds.buff first ∙ at,
            is,
          )

      abbrev last : Server
      last =
          sent_on c r t u (record p { client = came.1 }) x d a
            (record s {
              rps = taken n s.rps;
              peers = set_at s.peers c (some (record p { client = came.1 }));
            })

      conn_last : last.conns r ≡ record (s.conns r) {
        middle = d;
        r_num = ((s.conns r).r_num + x.cmd_num) % 2 ^ 64;
        is_block = x.is_block;
      }
      conn_last =
          let moved : Client = record (s.conns r) { middle = d } in
          let count : Client → Client =
            λ y. record y { r_num = (y.r_num + x.cmd_num) % 2 ^ 64; is_block = x.is_block } in
          set_at_same (set_at s.conns r moved) r (count (set_at s.conns r moved r))
          ∙ ap count (set_at_same s.conns r moved)

      abbrev peers_moved : ℕ → Option Peer
      peers_moved =
          set_at (set_at s.peers c (some (record p { client = came.1 }))) c
            (some (record p { client = record x { cmds = a } }))

      last-HandedOn : HandedOn c r n t u text s last
      last-HandedOn =
          let held_is : (last.conns r).is_block ≡ x.is_block = ap (λ y. y.is_block) conn_last in
          let middle : (last.conns r).middle ≡ d = ap (λ y. y.middle) conn_last in
          let (y, at, is) = queued-text in
          record {
            queued = (y, ap (λ m. m.buff (s.conns r).middle.wpos) middle ∙ at, is);
            queue_kept = λ j l. ap (λ m. m.buff j) middle ∙ e.dest_kept j l;
            one_more =
                ap (λ m. m.wpos) middle
                ∙ e.counted
                ∙ ap (λ k. (s.conns r).middle.wpos + k) one_command;
            awaits =
                ap (λ y. y.r_num) conn_last
                ∙ ap (λ k. ((s.conns r).r_num + k) % 2 ^ 64) (sym forwarded.one_more ∙ one_command);
            client = (
              record p { client = record x { cmds = a; cmd_num = 0 } },
              set_at_same peers_moved c
                  (some (record p { client = record x { cmds = a; cmd_num = 0 } })),
              after-IsIdle,
              refl,
              held_is,
            );
            entries = (
              ap (λ h. if h then s.c_to_r else t) (sym held_is),
              ap (λ h. if h then s.r_to_c else u) (sym held_is),
            );
            borrowed = refl;
            others = λ k ne. ground (arith, ne);
          }

  -- For a client that waits for a command, is valid, does not quit and holds no connection, and a
  -- connection of the pool with a place for one more, both free for entries in the tables: when recv
  -- gives the bytes of one whole command of at most 16384 bytes, of arguments that are not empty and a
  -- name of less than 60 bytes, whose number of arguments and lengths are written in the digits 1 to 9,
  -- without a 0, errno is not EAGAIN, and the allocator gives memory and extends the block of `cmd` in its place, then readC comes to its
  -- end. The connection has left the pool and is counted as active; its last command to send is a
  -- buffer with exactly these bytes, behind those that it had, and it awaits one reply more; both are
  -- in the tables, but for a command that holds the connection, for which the tables are as before;
  -- the client waits for the next command, and no other client has changed.
  pub read_c-hands_on :
      is_plain digits ≡ true
      → integer_of digits ≡ some (pos (length (b ∷ bs)))
      → AreBulks (b ∷ bs)
      → IsCommand w.parser b.arg
      → length text ≤ per_iobuf_size
      → (s' : Server) × (read_c w fd c s ≡ done tt s') × HandedOn c r n t u text s s'
  read_c-hands_on plain number valid command short =
      let (received, (x, parsed, forwarded)) =
        base_read-forwards w.parser env_gives g p.client ready.idle digits b bs plain number valid
          command short f in
      let (d, a, moved, e) = moves x received forwarded in
      (
        last x received forwarded d a e,
        read_c-sends w env_gives g fd c r p n t u s ready keys fresh_errno block text comes f fuel x
            d a received parsed moved,
        last-HandedOn x received forwarded d a e,
      )
