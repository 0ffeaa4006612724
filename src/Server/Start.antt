-- ===== src/Server/Start.antt =====
-- run and initServer of src/net/server.c up to the first worker: what is read from the configuration.
-- iniparser is a parameter: the values that it gives for the options, 0 and NULL where one is missing.
pub mod Sound
use redis_pool.Base.{
  ℕ, zero, suc, ◌≤◌, ◌<◌, ◌≡◌, sym, ap, ◌∙◌, Bool, true, false, not, ◌||◌, Option, none, some, List,
  arith, ltb, leb, ◌==◌, if◌then◌else◌, length,
}
use redis_pool.Base.Int.{ℤ, pos, negsuc}
use redis_pool.Server.Listen.{SocketWorld, OpenRun, opens, overrun, get_tcp_fd, get_unix_fd}
use redis_pool.Server.Socks.{Sock, SockWorld, NewSock, made, no_sock, wild, new_sock}

pub record Config : Type 0 where
  pub client_max : ℤ
  pub server_interval : ℤ
  pub server_tcp : ℤ
  pub server_backlog : ℤ
  pub server_ip : Option (List ℕ)
  pub server_port : ℤ
  pub server_path : Option (List ℕ)
  pub server_children : ℤ
  pub redis_ip : Option (List ℕ)
  pub redis_port : ℤ
  pub redis_max : ℤ
  pub redis_min : ℤ

-- base.h and server.h
abbrev pub max_client_num : ℕ
max_client_num = 10240

abbrev pub listen_back_log : ℕ
listen_back_log = 10240

abbrev pub fork_max_num : ℕ
fork_max_num = 20

-- An option that is out of its range has the largest value.
abbrev pub at_most : (bound : ℕ) → ℤ → ℕ
at_most bound (pos n) = if (n == 0) || ltb bound n then bound else n
at_most bound (negsuc n) = bound

-- millisecond
abbrev pub interval_of : ℤ → ℕ
interval_of (pos n) = if n == 0 then 2 else n
interval_of (negsuc n) = 2

abbrev pub is_above : ℤ → Bool
is_above (pos n) = ltb 0 n
is_above (negsuc n) = false

abbrev pub is_negative : ℤ → Bool
is_negative (pos n) = false
is_negative (negsuc n) = true

abbrev pub less_than : ℤ → ℤ → Bool
less_than (pos a) (pos b) = ltb a b
less_than (pos a) (negsuc b) = false
less_than (negsuc a) (pos b) = true
less_than (negsuc a) (negsuc b) = ltb b a

abbrev pub is_empty : Option (List ℕ) → Bool
is_empty none = true
is_empty (some t) = length t == 0

-- The test of the options of redis.
abbrev pub is_bad_redis : Config → Bool
is_bad_redis c =
    is_empty c.redis_ip
    || (not (is_above c.redis_port)
        || (is_negative c.redis_max
            || (is_negative c.redis_min || less_than c.redis_max c.redis_min)))

abbrev pub magnitude : ℤ → ℕ
magnitude (pos n) = n
magnitude (negsuc n) = 0

abbrev pub text_length : Option (List ℕ) → ℕ
text_length none = 0
text_length (some t) = length t

-- types.h: the bytes of the union `sock` of struct global, which a size_t aligns to 8.
abbrev pub sock_len : ℕ
sock_len = 104

-- Where run returns, the socket, `none` for -1, and a strcpy behind the end of an array.
pub data ServerFd : Type 0 where
  no_fd : ServerFd
  found : Option ℕ → ServerFd
  overruns : ServerFd

-- strcpy of the text to the union, whether there is a socket or not.
abbrev pub copied : (len : ℕ) → (fd : Option ℕ) → ServerFd
copied len fd = if leb sock_len len then overruns else found fd

abbrev pub with_path : (len : ℕ) → OpenRun → ServerFd
with_path len (opens o) = copied len o.fd
with_path len overrun = overruns

unfoldable pub server_fd : SocketWorld → Config → ServerFd
server_fd w c =
    if is_above c.server_tcp
    then (if is_empty c.server_ip
        then no_fd
        else if not (is_above c.server_port)
        then no_fd
        else copied (text_length c.server_ip)
            (get_tcp_fd w (text_length c.server_ip) (magnitude c.server_port)).fd)
    else (if is_empty c.server_path
        then no_fd
        else with_path (text_length c.server_path) (get_unix_fd w (text_length c.server_path)))

-- The answers of the system: whether the memory for globals, the server and the tree of the children is
-- given, whether iniCmd returns true, and those for the socket and the pipes.
pub record StartWorld : Type 0 where
  pub global_ok : Bool
  pub goes_on : Bool
  pub server_ok : Bool
  pub children_ok : Bool
  pub sockets : SocketWorld
  pub socks : SockWorld

-- The settings with which the workers are started.
pub record Setup : Type 0 where
  pub fd : ℕ
  pub max_client_size : ℕ
  pub interval : ℕ
  pub backlog : ℕ
  pub children : ℕ
  pub socks : Option Sock
  pub redis_max : ℕ
  pub redis_min : ℕ

pub data Start : Type 0 where
  returns : Start
  started : Setup → Start
  fault : Start

abbrev pub with_socks : Setup → NewSock → Start
with_socks s (made k) = started (record s { socks = some k })
with_socks s no_sock = returns
with_socks s wild = fault

-- initServer, and the pipes for more than one child.
abbrev pub start_workers : StartWorld → Setup → Start
start_workers w s =
    if not w.server_ok || not w.children_ok
    then returns
    else if ltb 1 s.children
    then with_socks s (new_sock w.socks s.children s.interval)
    else started s

abbrev pub setup_of : Config → (fd : ℕ) → Setup
setup_of c fd = record {
  fd = fd;
  max_client_size = at_most max_client_num c.client_max;
  interval = interval_of c.server_interval;
  backlog = at_most listen_back_log c.server_backlog;
  children = at_most fork_max_num c.server_children;
  socks = none;
  redis_max = magnitude c.redis_max;
  redis_min = magnitude c.redis_min;
}

-- fd <= 0
abbrev pub with_fd : StartWorld → Config → ServerFd → Start
with_fd w c no_fd = returns
with_fd w c overruns = fault
with_fd w c (found none) = returns
with_fd w c (found (some fd)) = if fd == 0 then returns else start_workers w (setup_of c fd)

unfoldable pub run : StartWorld → Config → Start
unfolding server_fd
run w c =
    if not w.global_ok || not w.goes_on
    then returns
    else if is_bad_redis c
    then returns
    else with_fd w c (server_fd w.sockets c)
