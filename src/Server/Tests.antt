-- ===== src/Server/Tests.antt =====
-- Runs of the callbacks of src/net/server.c on a small worker, and the theorems applied to them.
use redis_pool.Base.{◌+◌, ◌^◌, ◌≡◌, refl, inl, true, none, some, [], ◌∷◌, ◌++◌, arith}
use redis_pool.Types.Buffer.{per_iobuf_size}
use redis_pool.Types.Buffer.Content.{content}
use redis_pool.Types.Array.Append.{fresh}
use redis_pool.Client.{Client, nl}
use redis_pool.Client.Read.{got, closed, restored}
use redis_pool.Client.Write.{error, base_write, write_loop}
use redis_pool.Map.Hash.Samples.{
  empty_table, one_entry, put_first, hash_put-client, hash_put-conn, hash_remove-none, hash_get-one,
  taken_out, hash_get-conn, hash_remove-conn, hash_remove-client, one_entry-IsAlone,
}
use redis_pool.Map.Tree.Samples.{freed, tree_remove_and_free-one}
use redis_pool.Pool.{get_redis}
use redis_pool.Multibulk.Samples.{
  gives, first_place, ping, ping_bytes, command_text-ping, digit_one, ping-AreBulks, ping-IsCommand,
  one-is_plain, ping_short, empty-IsIdle,
}
use redis_pool.Multibulk.Forward.{command_text}
use redis_pool.Server.{Server, World, done, fault, set_at}
use redis_pool.Server.Backend.{read_r, write_r}
use redis_pool.Server.Backend.Dangling.{IsJoined, write_r-dangles}
use redis_pool.Server.Frontend.{read_c, write_c}
use redis_pool.Server.Backend.HandsBack.{IsAwaiting, HandedBack, read_r-hands_back}
use redis_pool.Multibulk.Line.{is_plain}
use redis_pool.Server.Frontend.Reads.{read_c-stale}
use redis_pool.Server.Frontend.Sends.{IsReady}
use redis_pool.Server.Frontend.HandsOn.{HandedOn, read_c-hands_on}
use redis_pool.Server.Frontend.Busy.{IsTurnedAway, TurnedAway, read_c-turns_away}
use redis_pool.Server.Samples.{ping_world, none_idle, user, one_client, with_two_bytes}

ping_text : ping_world.recv ≡ got (command_text (b'1' ∷ []) (ping ∷ []))
ping_text = rw command_text-ping refl

one_client-IsReady :
    IsReady ping_world 7 50 10 user
      (record { fd = 3; prev = 0; next = 0 })
      (put_first 7 10)
      (put_first 3 50)
      one_client
one_client-IsReady = record {
  client_is = (refl, refl);
  conn_is = (refl, refl);
  first = refl;
  avalid = omega arith;
  idle = empty-IsIdle;
  sent_all = refl;
  stays = (refl, refl);
  not_held = refl;
  room = (omega arith, omega arith);
  size = omega arith;
  place_set = λ e. cc;
  client_entry = (0, hash_put-client);
  conn_entry = (0, hash_put-conn);
}

read_c-hands_on_example :
    (s' : Server) × (read_c ping_world 7 50 one_client ≡ done tt s')
    × HandedOn 50 10
        (record { fd = 3; prev = 0; next = 0 })
        (put_first 7 10)
        (put_first 3 50)
        (command_text (b'1' ∷ []) (ping ∷ []))
        one_client
        s'
read_c-hands_on_example =
    read_c-hands_on ping_world gives (λ i. 0) 7 50 10 user (record { fd = 3; prev = 0; next = 0 })
      (put_first 7 10) (put_first 3 50) one_client one_client-IsReady refl refl refl (b'1' ∷ [])
      ping [] ping_text 0 refl one-is_plain digit_one ping-AreBulks ping-IsCommand
      (ping_short per_iobuf_size (omega arith))

abbrev stale_world : World
stale_world = record ping_world { again = true }

read_c-stale_example :
    (x : Client) × (read_c stale_world 7 50 one_client
      ≡ done tt (record one_client {
        peers = set_at one_client.peers 50 (some (record user { client = x }));
      }))
    × (content x.cmd ≡ content user.client.cmd ++ ping_bytes)
    × (restored user.client x ≡ user.client)
read_c-stale_example =
    read_c-stale stale_world (λ i. 0) 7 50 user one_client ping_bytes refl refl refl refl refl refl
      empty-IsIdle.valid (omega arith) (omega arith)

abbrev busy_client : Server
busy_client = record one_client { rps = none_idle }

busy_client-IsTurnedAway :
    IsTurnedAway ping_world ping_world 7 50 user none_idle empty_table
      (freed (7 + 2 ^ 31) 50)
      busy_client
unfolding get_redis
busy_client-IsTurnedAway = record {
  client_is = (refl, refl);
  socket = refl;
  stays = (refl, refl);
  not_held = refl;
  none_to_send = omega arith;
  place = first_place;
  empty_place = fresh refl refl refl;
  no_conn = refl;
  no_entry = hash_remove-none;
  in_tree = tree_remove_and_free-one;
  goes_on = refl;
}

read_c-turns_away_example :
    (s' : Server) × (s'' : Server) × (x : Client) × (read_c ping_world 7 50 busy_client
      ≡ done tt s')
    × (write_c ping_world 7 50 s' ≡ done tt s'')
    × TurnedAway 50 user none_idle x busy_client s' s''
read_c-turns_away_example =
    read_c-turns_away ping_world ping_world 7 50 user none_idle empty_table (freed (7 + 2 ^ 31) 50)
      busy_client busy_client-IsTurnedAway (λ i. 0) gives refl ping_bytes refl refl
      empty-IsIdle.valid (omega arith) (omega arith)

-- The write to the connection fails, and then the client closes.
abbrev broken_world : World
broken_world = record ping_world { sends = error ∷ [] }

abbrev closed_world : World
closed_world = record ping_world { recv = closed }

abbrev joined_client : Server
joined_client = record one_client {
  conns = λ r. with_two_bytes;
  c_to_r = one_entry 7 10;
  r_to_c = one_entry 3 50;
}

joined_client-IsJoined :
    IsJoined broken_world 3 10
      (record { fd = 3; prev = 0; next = 0 })
      closed_world
      7
      50
      user
      (one_entry 7 10)
      joined_client
joined_client-IsJoined = record {
  conn_is = (refl, refl);
  first = refl;
  client_is = (refl, refl);
  stays = refl;
  more = refl;
  conn_entry = (0, one_entry-IsAlone);
  client_entry = hash_get-one;
}

write_r-dangles_example :
    (s' : Server) × (write_r broken_world 3 10 joined_client ≡ done tt s')
    × (s'.peers ≡ joined_client.peers)
    × (s'.c_to_r ≡ joined_client.c_to_r)
    × (s'.rps.nodes 10 ≡ none)
    × (read_c closed_world 7 50 s' ≡ fault)
unfolding base_write write_loop
write_r-dangles_example =
    write_r-dangles broken_world 3 10 (record { fd = 3; prev = 0; next = 0 }) closed_world 7 50 user
      (one_entry 7 10) joined_client joined_client-IsJoined with_two_bytes.middle [] refl 1 refl
      refl

-- "+OK"
abbrev ok_world : World
ok_world = record ping_world { recv = got ((b'+' ∷ b'O' ∷ b'K' ∷ []) ++ nl) }

abbrev awaiting : Server
awaiting = record one_client { c_to_r = one_entry 7 10; r_to_c = one_entry 3 50 }

awaiting-IsAwaiting :
    IsAwaiting ok_world 3 50 10 user
      (record { fd = 3; prev = 0; next = 0 })
      (taken_out 7 10)
      (taken_out 3 50)
      awaiting
awaiting-IsAwaiting = record {
  client_is = (refl, refl);
  conn_is = (refl, refl);
  stays = (refl, refl);
  idle = empty-IsIdle;
  sent_none = refl;
  awaits = refl;
  not_held = refl;
  room = (omega arith, omega arith);
  size = omega arith;
  place_set = λ e. cc;
  joined = hash_get-conn;
  conn_entry = (50, hash_remove-conn);
  client_entry = (10, hash_remove-client);
}

ok_plain : is_plain (b'+' ∷ b'O' ∷ b'K' ∷ []) ≡ true
unfolding is_plain
ok_plain = refl

read_r-hands_back_example :
    (s' : Server) × (read_r ok_world 3 10 awaiting ≡ done tt s')
    × HandedBack 50 10 user
        (taken_out 7 10)
        (taken_out 3 50)
        ((b'+' ∷ b'O' ∷ b'K' ∷ []) ++ nl)
        awaiting
        s'
read_r-hands_back_example =
    read_r-hands_back ok_world gives (λ i. 0) 3 50 10 user (record { fd = 3; prev = 0; next = 0 })
      (taken_out 7 10) (taken_out 3 50) awaiting awaiting-IsAwaiting refl refl b'+'
      (b'O' ∷ b'K' ∷ []) (inl refl) ok_plain refl (omega arith)
