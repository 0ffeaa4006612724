-- ===== src/Server/ParentTests.antt =====
-- Runs of the parent of src/net/server.c and of the pipes to its workers, and the theorems applied to
-- them.
use redis_pool.Base.{
  ◌==◌, if◌then◌else◌, ◌+◌, ◌^◌, arith, ◌<◌, ◌≤◌, ◌≡◌, refl, true, false, none, some, [], ◌∷◌,
}
use redis_pool.Base.Int.{pos, negsuc}
use redis_pool.Map.Tree.Samples.{one_node}
use redis_pool.Server.{Server}
use redis_pool.Server.Samples.{one_client, none_idle}
use redis_pool.Multibulk.Samples.{client_of, empty_buffer}
use redis_pool.Server.Socks.{ClientInfo, Sock, SockWorld, sock_of, new_sock, write_s, max_info_num}
use redis_pool.Server.Socks.Accept.{Accepted, AcceptWorld, accept_c, queue_info, is_loaded}
use redis_pool.Server.Socks.Idle.{accepts, here, next, new_sock-sends_none}
use redis_pool.Server.Listen.{
  SocketWorld, IsAccounted, IsSafe, overrun, get_tcp_fd, get_unix_fd, connect_tcp_fd,
  connect_unix_fd, sockets-IsAccounted,
}
use redis_pool.Server.Start.{Config, StartWorld, setup_of, server_fd, run, text_length, sock_len}
use redis_pool.Server.Start.Sound.{IsSound, server_text, run-IsSound}
use redis_pool.Server.Restart.{RestartWorld, Parent}

abbrev no_info : ClientInfo
no_info = record { fd = negsuc 0; ip = [] }

-- Two pipes.
abbrev two_pipes : SockWorld
two_pipes = record {
  sock_ok = true;
  ch_ok = true;
  pipes = some (record { r = 20; w = 21; ct = 0 }) ∷ some (record { r = 22; w = 23; ct = 0 }) ∷ [];
  info_ok = true;
  p_to_c_ok = true;
  r_c_ok = true;
  r_n_ok = true;
  garbage = λ i. no_info;
}

abbrev two_channels : Sock
two_channels =
    sock_of two_pipes 2 1
      (record { r = 20; w = 21; ct = 0 } ∷ record { r = 22; w = 23; ct = 0 } ∷ [])

abbrev accept_world : AcceptWorld
accept_world = record {
  address = 60;
  client = client_of empty_buffer;
  value = 61;
  node = 2;
  fuel = 2;
  max_client_size = 4;
}

abbrev visitor : Accepted
visitor = record { fd = 8; ip = [] }

abbrev full : Server
full = record one_client { rps = none_idle }

new_sock-sends_none_example :
    (write_s true 7 (queue_info 5 visitor.ip two_channels)
      ≡ (queue_info 5 visitor.ip two_channels, []))
    × ((queue_info 5 visitor.ip two_channels).used ≤ max_info_num)
unfolding new_sock accept_c is_loaded
new_sock-sends_none_example =
    new_sock-sends_none two_pipes 2 1 refl (next here (accepts accept_world 5 visitor full refl))
      true 7

abbrev open_socket : SocketWorld
open_socket = record { socket = some 5; bind_ok = true; listen_ok = true; connect_ok = false }

sockets-IsAccounted_example :
    IsAccounted (get_tcp_fd open_socket 9 6379)
    × IsAccounted (connect_tcp_fd open_socket 9 6379)
    × IsSafe (get_unix_fd open_socket 20)
    × IsSafe (connect_unix_fd open_socket 20)
    × (get_unix_fd open_socket 200 ≡ overrun)
    × (connect_unix_fd open_socket 200 ≡ overrun)
sockets-IsAccounted_example =
    sockets-IsAccounted open_socket 9 6379 20 200 5 (omega arith) (omega arith)

-- One child, and numbers that are not set.
abbrev config : Config
config = record {
  client_max = pos 20000;
  server_interval = negsuc 0;
  server_tcp = pos 1;
  server_backlog = pos 0;
  server_ip = some (b'1' ∷ []);
  server_port = pos 6380;
  server_path = none;
  server_children = pos 1;
  redis_ip = some (b'1' ∷ []);
  redis_port = pos 6379;
  redis_max = pos 8;
  redis_min = pos 2;
}

abbrev start_world : StartWorld
start_world = record {
  global_ok = true;
  goes_on = true;
  server_ok = true;
  children_ok = true;
  sockets = open_socket;
  socks = two_pipes;
}

run-IsSound_example : IsSound (setup_of config 5) × (text_length (server_text config) < sock_len)
unfolding run server_fd get_tcp_fd
run-IsSound_example = run-IsSound start_world config refl

abbrev restart_world : RestartWorld
restart_world = record {
  sync_ok = true;
  id = 9;
  local = 70;
  child_node = 2;
  chan_node = 2;
  fuel = 2;
}

-- A parent with pipes, of which the value 50 has the channel 1.
abbrev parent : Parent
parent = record {
  children = one_node (7 + 2 ^ 31) 50;
  p_to_c = some (one_node (7 + 2 ^ 31) 50);
  is_exit = false;
  values = λ p. if p == 50 then some 50 else none;
}
