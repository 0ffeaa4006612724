-- ===== src/Server/Listen.antt =====
-- The sockets of src/net/server.c: getTcpFd, getUnixFd, connectTcpFd, connectUnixFd and setTimeOut over
-- the answers of the system. Texts are given by their lengths.
use redis_pool.Base.{
  ℕ, zero, suc, ◌<◌, ◌≤◌, ◌≡◌, refl, Bool, true, false, not, ◌&&◌, ◌||◌, Option, none, some, List,
  [], ◌∷◌, ◌++◌, arith, ltb, leb, ◌==◌, if◌then◌else◌,
}
use redis_pool.Pool.Init.{max_port}

-- What the calls for one socket answer; `none` is a socket that cannot be had.
pub record SocketWorld : Type 0 where
  pub socket : Option ℕ
  pub bind_ok : Bool
  pub listen_ok : Bool
  pub connect_ok : Bool

-- The result, `none` for -1, and the sockets opened and closed on the way.
pub record Opened : Type 0 where
  pub fd : Option ℕ
  pub opened : List ℕ
  pub closed : List ℕ

abbrev refused : Opened
refused = record { fd = none; opened = []; closed = [] }

abbrev kept : ℕ → Opened
kept fd = record { fd = some fd; opened = fd ∷ []; closed = [] }

abbrev closed_again : ℕ → Opened
closed_again fd = record { fd = none; opened = fd ∷ []; closed = fd ∷ [] }

-- `overrun` is a strcpy behind the end of sun_path, a local array of the function.
pub data OpenRun : Type 0 where
  opens : Opened → OpenRun
  overrun : OpenRun

-- The bytes of sun_path in struct sockaddr_un of Linux.
abbrev pub sun_path_len : ℕ
sun_path_len = 108

-- The macros setTcp and setUnix. setUnix copies the path with its final zero.
abbrev set_tcp : (ip_len port : ℕ) → Option ℕ → (ℕ → Opened) → Opened
set_tcp ip_len port socket rest =
    if (ip_len == 0) || ((port == 0) || ltb max_port port)
    then refused
    else elim socket [ none ↦ refused | some fd ↦ rest fd ]

abbrev set_unix : (path_len : ℕ) → Option ℕ → (ℕ → Opened) → OpenRun
set_unix path_len socket rest = if path_len == 0 then opens refused else elim socket [
  | none ↦ opens refused
  | some fd ↦ if leb sun_path_len path_len then overrun else opens (rest fd)
]

-- Behind the macro and setReuseByFd, whose result is not looked at.
abbrev bind_listen : SocketWorld → (fd : ℕ) → Opened
bind_listen w fd =
    if not w.bind_ok then closed_again fd else if not w.listen_ok then closed_again fd else kept fd

unfoldable pub get_tcp_fd : SocketWorld → (ip_len port : ℕ) → Opened
get_tcp_fd w ip_len port = set_tcp ip_len port w.socket (bind_listen w)

unfoldable pub get_unix_fd : SocketWorld → (path_len : ℕ) → OpenRun
get_unix_fd w path_len = set_unix path_len w.socket (bind_listen w)

abbrev connect : SocketWorld → (fd : ℕ) → Opened
connect w fd = if not w.connect_ok then closed_again fd else kept fd

unfoldable pub connect_tcp_fd : SocketWorld → (ip_len port : ℕ) → Opened
connect_tcp_fd w ip_len port = set_tcp ip_len port w.socket (connect w)

unfoldable pub connect_unix_fd : SocketWorld → (path_len : ℕ) → OpenRun
connect_unix_fd w path_len = set_unix path_len w.socket (connect w)

-- setTimeOut: the calls of setsockopt, and what is returned. Behind the last test the function ends
-- without a value: `none`.
unfoldable pub set_time_out : (fd sec usec : ℕ) (send_ok recv_ok : Bool) → Option Bool × ℕ
set_time_out fd sec usec send_ok recv_ok =
    if (fd == 0) || ((sec == 0) && (usec == 0))
    then (some true, 0)
    else if not send_ok
    then (some false, 1)
    else if not recv_ok
    then (some false, 2)
    else (none, 2)

-- What became of a socket: it is the result, or closed.
abbrev pub result_of : Option ℕ → List ℕ
result_of none = []
result_of (some fd) = fd ∷ []

abbrev pub IsAccounted : Opened → Type 0
IsAccounted o = o.opened ≡ result_of o.fd ++ o.closed

-- The function comes to its end with this.
abbrev pub IsSafe : OpenRun → Type 0
IsSafe r = (o : Opened) × (r ≡ opens o) × IsAccounted o

set_unix-IsSafe :
    (path_len : ℕ) (socket : Option ℕ) (rest : ℕ → Opened)
    → path_len < sun_path_len
    → ((fd : ℕ) → IsAccounted (rest fd))
    → IsSafe (set_unix path_len socket rest)
set_unix-IsSafe zero socket rest short accounts = (refused, refl, refl)
set_unix-IsSafe (suc n) none rest short accounts = (refused, ground arith, refl)
set_unix-IsSafe (suc n) (some fd) rest short accounts = (rest fd, ground arith, accounts fd)

-- Whatever the system answers: getTcpFd and connectTcpFd, and getUnixFd and connectUnixFd for a path of
-- less than 108 bytes, either return the socket that they open or close it, open no other, and close none
-- that they have not opened. For a longer path and a socket that the system gives, the last two write
-- behind the end of sun_path.
pub sockets-IsAccounted :
    (w : SocketWorld) (ip_len port len long fd : ℕ)
    → len < sun_path_len
    → sun_path_len ≤ long
    → IsAccounted (get_tcp_fd w ip_len port)
      × IsAccounted (connect_tcp_fd w ip_len port)
      × IsSafe (get_unix_fd w len)
      × IsSafe (connect_unix_fd w len)
      × (get_unix_fd (record w { socket = some fd }) long ≡ overrun)
      × (connect_unix_fd (record w { socket = some fd }) long ≡ overrun)
unfolding get_tcp_fd get_unix_fd connect_tcp_fd connect_unix_fd
sockets-IsAccounted w ip_len port len long fd short beyond = (
  ground arith,
  ground arith,
  set_unix-IsSafe len w.socket (bind_listen w) short (λ s. ground arith),
  set_unix-IsSafe len w.socket (connect w) short (λ s. ground arith),
  ground arith,
  ground arith,
)
