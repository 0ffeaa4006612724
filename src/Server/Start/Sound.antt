-- ===== src/Server/Start/Sound.antt =====
-- The settings with which run of src/net/server.c starts the workers.
use redis_pool.Base.{
  ℕ, zero, suc, ◌≤◌, ◌<◌, ◌≡◌, refl, List, sym, ap, ◌∙◌, false, ◌||◌, Option, none, some, arith,
  ◌==◌, if◌then◌else◌,
}
use redis_pool.Base.Int.{ℤ, pos, negsuc}
use redis_pool.Server.Listen.{SocketWorld, OpenRun, opens, overrun, get_unix_fd}
use redis_pool.Server.Socks.{NewSock, made, no_sock, wild, new_sock}
use redis_pool.Server.Start.{
  Config, max_client_num, listen_back_log, fork_max_num, at_most, interval_of, is_negative,
  less_than, magnitude, server_fd, is_above, text_length, sock_len, ServerFd, no_fd, found,
  overruns, with_path, StartWorld, Setup, returns, started, setup_of, with_socks, start_workers,
  with_fd, run,
}

-- What a worker can rely on.
pub record IsSound (s : Setup) : Type 0 where
  pub open_fd : 0 < s.fd
  pub clients : (0 < s.max_client_size) × (s.max_client_size ≤ max_client_num)
  pub interval_pos : 0 < s.interval
  pub backlog_fits : (0 < s.backlog) × (s.backlog ≤ listen_back_log)
  pub children_fit : (0 < s.children) × (s.children ≤ fork_max_num)
  pub pool_order : s.redis_min ≤ s.redis_max

at_most-bounds : (bound : ℕ) (z : ℤ) → 0 < bound → (0 < at_most bound z) × (at_most bound z ≤ bound)
at_most-bounds bound (pos n) h = ground arith
at_most-bounds bound (negsuc n) h = ground arith

interval_of-pos : (z : ℤ) → 0 < interval_of z
interval_of-pos (pos n) = ground arith
interval_of-pos (negsuc n) = ground arith

order :
    (max min : ℤ)
    → (is_negative max || (is_negative min || less_than max min)) ≡ false
    → magnitude min ≤ magnitude max
order (pos a) (pos b) h = ground arith
order (pos a) (negsuc b) h = ground arith
order (negsuc a) min h = cc

-- The pipes are the only setting that is found behind the others.
with_socks-same :
    (s : Setup) (n : NewSock) {s' : Setup}
    → with_socks s n ≡ started s'
    → record s' { socks = s.socks } ≡ s
with_socks-same s (made k) e = ground arith
with_socks-same s no_sock e = cc
with_socks-same s wild e = cc

start_workers-same :
    (w : StartWorld) (s : Setup) {s' : Setup}
    → start_workers w s ≡ started s'
    → record s' { socks = s.socks } ≡ s
start_workers-same w s e =
    ground (arith, with_socks-same s (new_sock w.socks s.children s.interval))

IsSound-kept : (s s' : Setup) → record s' { socks = s.socks } ≡ s → IsSound s → IsSound s'
IsSound-kept s s' same h = record {
  open_fd = omega (arith, ap (λ x. x.fd) same, h.open_fd);
  clients = (
    omega (arith, ap (λ x. x.max_client_size) same, h.clients.0),
    omega (arith, ap (λ x. x.max_client_size) same, h.clients.1),
  );
  interval_pos = omega (arith, ap (λ x. x.interval) same, h.interval_pos);
  backlog_fits = (
    omega (arith, ap (λ x. x.backlog) same, h.backlog_fits.0),
    omega (arith, ap (λ x. x.backlog) same, h.backlog_fits.1),
  );
  children_fit = (
    omega (arith, ap (λ x. x.children) same, h.children_fit.0),
    omega (arith, ap (λ x. x.children) same, h.children_fit.1),
  );
  pool_order = omega (arith, ap (λ x. x.redis_min) same, ap (λ x. x.redis_max) same, h.pool_order);
}

setup_of-IsSound :
    (c : Config) (fd : ℕ)
    → 0 < fd
    → magnitude c.redis_min ≤ magnitude c.redis_max
    → IsSound (setup_of c fd)
setup_of-IsSound c fd positive m = record {
  open_fd = positive;
  clients = at_most-bounds max_client_num c.client_max (omega arith);
  interval_pos = interval_of-pos c.server_interval;
  backlog_fits = at_most-bounds listen_back_log c.server_backlog (omega arith);
  children_fit = at_most-bounds fork_max_num c.server_children (omega arith);
  pool_order = m;
}

with_fd-IsSound :
    (w : StartWorld) (c : Config) (r : ServerFd) {s : Setup}
    → magnitude c.redis_min ≤ magnitude c.redis_max
    → with_fd w c r ≡ started s
    → IsSound s × ((fd : Option ℕ) × (r ≡ found fd))
with_fd-IsSound w c no_fd m e = cc
with_fd-IsSound w c overruns m e = cc
with_fd-IsSound w c (found none) m e = cc
with_fd-IsSound w c (found (some zero)) m e = cc
with_fd-IsSound w c (found (some (suc fd))) {s} m e =
    let positive : (suc fd == 0) ≡ false = ground arith in
    let begins : start_workers w (setup_of c (suc fd)) ≡ started s =
      ap (λ b. if b then returns else start_workers w (setup_of c (suc fd))) (sym positive) ∙ e in
    (
      IsSound-kept (setup_of c (suc fd)) s (start_workers-same w (setup_of c (suc fd)) begins)
          (setup_of-IsSound c (suc fd) (omega arith) m),
      (some (suc fd), refl),
    )

-- The ip or the path of the server.
abbrev pub server_text : Config → Option (List ℕ)
server_text c = if is_above c.server_tcp then c.server_ip else c.server_path

with_path-fits :
    (len : ℕ) (r : OpenRun) (fd : Option ℕ) → with_path len r ≡ found fd → len < sock_len
with_path-fits len (opens o) fd e = ground arith
with_path-fits len overrun fd e = cc

server_fd-fits :
    (w : SocketWorld) (c : Config) (fd : Option ℕ)
    → server_fd w c ≡ found fd
    → text_length (server_text c) < sock_len
unfolding server_fd
server_fd-fits w c fd e = ground (
  arith,
  with_path-fits (text_length c.server_path) (get_unix_fd w (text_length c.server_path)) fd,
)

-- Whatever the configuration and the system are, workers are started only with: a socket that is not 0;
-- 1 to 10240 clients; an interval of at least 1; a backlog of 1 to 10240; 1 to 20 children; a least number
-- of connections that is not above the largest; and an ip or a path of the server of less than 104 bytes,
-- which with its final zero does not go over the end of the union `sock` of globals.
pub run-IsSound :
    (w : StartWorld) (c : Config) {s : Setup}
    → run w c ≡ started s
    → IsSound s × (text_length (server_text c) < sock_len)
unfolding run
run-IsSound w c {s} e =
    let ordered : (is_negative c.redis_max
          || (is_negative c.redis_min || less_than c.redis_max c.redis_min))
        ≡ false =
      ground arith in
    let begins : with_fd w c (server_fd w.sockets c) ≡ started s = ground arith in
    let (sound, (fd, found_it)) =
      with_fd-IsSound w c (server_fd w.sockets c) (order c.redis_max c.redis_min ordered) begins in
    (sound, server_fd-fits w.sockets c fd found_it)
