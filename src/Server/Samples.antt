-- ===== src/Server/Samples.antt =====
-- A small worker with one client and one connection of the pool.
use redis_pool.Base.{true, false, none, some, [], ◌∷◌, ◌==◌, if◌then◌else◌}
use redis_pool.Types.Memory.{in_place, failed}
use redis_pool.Types.Array.{held, null}
use redis_pool.Types.Buffer.{Buffer}
use redis_pool.Client.{Client}
use redis_pool.Client.Read.{got}
use redis_pool.Map.Hash.Samples.{empty_table}
use redis_pool.Map.Tree.Samples.{one_node}
use redis_pool.Pool.{Pool, Dial}
use redis_pool.Multibulk.Samples.{gives_env, client_of, empty_buffer, ping_bytes}
use redis_pool.Server.{Peer, Server, World}
use redis_pool.Server.Remove.{key_of_fd}

abbrev pub no_answer : Dial
no_answer = record { fd = 0; sent = false; received = false; ok = []; address = 0; client = false }

-- recv gives "PING".
abbrev pub ping_world : World
ping_world = record {
  parser = gives_env;
  again = false;
  recv = got ping_bytes;
  block = in_place (λ i. 0);
  slots = failed;
  sends = [];
  dial = no_answer;
  fresh = client_of empty_buffer;
  keys_ok = true;
  room = true;
  fuel = 2;
}

-- The connection 10 has the socket 3, and the pool can have no other.
abbrev pub one_idle : Pool
one_idle = record {
  max_num = 1;
  min_num = 1;
  avalid_num = 1;
  active_num = 0;
  auth_len = 0;
  redises = 10;
  nodes = λ p. if p == 10 then some (record { fd = 3; prev = 0; next = 0 }) else none;
  closed = [];
}

abbrev pub none_idle : Pool
none_idle = record one_idle { avalid_num = 0; active_num = 1; redises = 0 }

abbrev pub user : Peer
user = record { fd = 7; client = client_of empty_buffer }

-- The client 50 has the socket 7.
abbrev pub one_client : Server
one_client = record {
  rps = one_idle;
  conns = λ r. client_of empty_buffer;
  peers = λ p. if p == 50 then some user else none;
  c_to_r = empty_table;
  r_to_c = empty_table;
  clients = one_node (key_of_fd 7) 50;
  is_exit = false;
  out = [];
}

-- Two bytes, of which none has been sent.
abbrev pub two_bytes : Buffer
two_bytes = record { buf = 7 ∷ 8 ∷ 0 ∷ []; max = 3; rpos = 0; wpos = 2; used = 2 }

abbrev pub with_two_bytes : Client
with_two_bytes = record (client_of empty_buffer) {
  middle = record {
    buff = λ j. if j == 0 then held two_bytes else null;
    size = 60;
    rpos = 0;
    wpos = 1;
    max = 60;
    used = 1;
    pendding = false;
    stray = 0;
  };
}
