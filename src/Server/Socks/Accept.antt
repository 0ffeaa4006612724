-- ===== src/Server/Socks/Accept.antt =====
-- acceptC of src/net/server.c, and the part of readS that takes over a client of another worker.
use redis_pool.Base.{
  ℕ, ◌+◌, Bool, not, ◌&&◌, ◌||◌, Option, none, some, List, leb, ◌==◌, if◌then◌else◌,
}
use redis_pool.Base.Int.{pos}
use redis_pool.Map.Tree.Ops as Ops
use redis_pool.Client.{Client}
use redis_pool.Map.Tree.Store.{Tree}
use redis_pool.Map.Tree.Store as Store
use redis_pool.Map.Tree.Ops.{tree_get, tree_put}
use redis_pool.Server.{Server, set_at}
use redis_pool.Server.Remove.{key_of_fd}
use redis_pool.Server.Socks.{Sock, max_info_num}

-- A connection of a user as accept gives it. The text of its address is empty where there is none.
pub record Accepted : Type 0 where
  pub fd : ℕ
  pub ip : List ℕ

-- The answers of the allocator: the address of the client and of the mapValue, 0 for NULL, and of a
-- node of the tree; `client` is what newClient gives.
pub record AcceptWorld : Type 0 where
  pub address : ℕ
  pub client : Client
  pub value : ℕ
  pub node : ℕ
  pub fuel : ℕ
  pub max_client_size : ℕ

-- `turned_away` is a client to which a message is sent and whose socket is closed. `fault` is the use of
-- `socks` where it is NULL.
pub data AcceptRun : Type 0 where
  served : Server → AcceptRun
  queued : Sock → AcceptRun
  turned_away : (fd : ℕ) → AcceptRun
  closed : (fd : ℕ) → AcceptRun
  fault : AcceptRun
  out_of_fuel : AcceptRun

unfoldable pub is_loaded : (max_client_size : ℕ) → Server → Bool
is_loaded size s = leb s.rps.max_num s.rps.active_num || leb size s.clients.total

abbrev served_with : Server → Store.Run Ops.Status → AcceptRun
served_with s (Store.done status t) = served (record s { clients = t })
served_with s Store.fault = fault
served_with s Store.out_of_fuel = out_of_fuel

-- newClient and what follows it. Only where both pointers are NULL the socket is closed.
unfoldable pub add_client : AcceptWorld → (fd : ℕ) → Server → AcceptRun
add_client w fd s =
    if (w.address == 0) && (w.value == 0)
    then closed fd
    else served_with
        (record s {
          peers =
              if w.address == 0
              then s.peers
              else set_at s.peers w.address (some (record { fd = fd; client = w.client }));
        })
        (tree_put w.fuel w.node (key_of_fd fd) w.value s.clients)

-- The entry gets `fd`, the socket that listens, and not that of the client.
abbrev pub queue_info : (fd : ℕ) (ip : List ℕ) → Sock → Sock
queue_info fd ip k = record k {
  info = λ i. if i == k.used then record { fd = pos fd; ip = ip } else k.info i;
  used = k.used + 1;
}

abbrev queue_client : (fd : ℕ) → Accepted → Option Sock → AcceptRun
queue_client fd a none = fault
queue_client fd a (some k) =
    if leb max_info_num k.used then turned_away a.fd else queued (queue_info fd a.ip k)

-- `fd` is the socket that listens; `none` is an accept that gives no client.
unfoldable pub accept_c :
    AcceptWorld → (fd : ℕ) → Option Accepted → Server → Option Sock → AcceptRun
unfolding is_loaded add_client
accept_c w fd none s socks = served s
accept_c w fd (some a) s socks =
    if is_loaded w.max_client_size s then queue_client fd a socks else add_client w a.fd s

abbrev take_over : AcceptWorld → (fd : ℕ) → Server → Store.Run ℕ → AcceptRun
take_over w fd s (Store.done v t) =
    if not (v == 0)
    then served s
    else if is_loaded w.max_client_size s
    then turned_away fd
    else add_client w fd s
take_over w fd s Store.fault = fault
take_over w fd s Store.out_of_fuel = out_of_fuel

-- readS of a client: `fd` is its socket as the message has it.
unfoldable pub read_client : AcceptWorld → (fd : ℕ) → Server → AcceptRun
unfolding is_loaded add_client
read_client w fd s = take_over w fd s (tree_get w.fuel (key_of_fd fd) s.clients)
