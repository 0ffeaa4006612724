-- ===== src/Server.antt =====
-- The worker of src/net/server.c: its clients, their connections to redis, and the tables that join
-- them. A callback is an action on the state of the worker. A pointer to a struct client of a user is
-- a number, 0 is NULL, and one to a struct redis is that of the pool. The values in the tables are
-- these pointers. The times of the last messages and the events are left out.
pub mod Steps
pub mod Remove
pub mod Backend
pub mod Frontend
pub mod Socks
pub mod Listen
pub mod Start
pub mod Worker
pub mod Restart
pub mod Samples
mod Tests
mod ParentTests
use redis_pool.Base.{ℕ, ◌+◌, ◌^◌, Bool, Option, none, some, List, [], ◌∷◌, ◌==◌, if◌then◌else◌}
use redis_pool.Types.Memory.{Realloc}
use redis_pool.Types.Array.{Status, s_err, s_ok, s_nt, BufferArray, ArrayRun}
use redis_pool.Types.Array.Transfer.{ends, crash, mv_array_buff}
use redis_pool.Client.{Client, Action, Outcome, go, stop}
use redis_pool.Client.Read.{Recv, again, error, closed, got}
use redis_pool.Client.Write.{Send}
use redis_pool.Multibulk.{Env}
use redis_pool.Map.Hash.{MapKey, Hash, Result, hash_get, hash_put, hash_remove}
use redis_pool.Map.Tree.Store.{Tree}
use redis_pool.Pool.{Pool, Dial, at}

-- A client of a user.
pub record Peer : Type 0 where
  pub fd : ℕ
  pub client : Client

-- struct server, with the memory: `conns` has the client `c` of each struct redis. `out` lists what
-- send took, the last first, with its socket.
pub record Server : Type 0 where
  pub rps : Pool
  pub conns : ℕ → Client
  pub peers : ℕ → Option Peer
  pub c_to_r : Hash
  pub r_to_c : Hash
  pub clients : Tree
  pub is_exit : Bool
  pub out : List (ℕ × List ℕ)

-- `exits` is a call of exit.
pub data Run (A : Type 0) : Type 0 where
  done : A → Server → Run A
  fault : Run A
  exits : Run A
  out_of_fuel : Run A

abbrev pub M : Type 0 → Type 0
M A = Server → Run A

abbrev pub and_then : {A B : Type 0} → Run A → (A → M B) → Run B
and_then (done a s) f = f a s
and_then fault f = fault
and_then exits f = exits
and_then out_of_fuel f = out_of_fuel

infixl 5 ◌>>=◌ ◌>>◌
abbrev pub ◌>>=◌ : {A B : Type 0} → M A → (A → M B) → M B
◌>>=◌ m f s = and_then (m s) f

abbrev pub ◌>>◌ : {B : Type 0} → M (Unit {0}) → M B → M B
m >> k = m >>= λ _. k

abbrev pub pure : {A : Type 0} → A → M A
pure a s = done a s

abbrev pub gets : {A : Type 0} → (Server → A) → M A
gets f s = done (f s) s

abbrev pub modify : (Server → Server) → M (Unit {0})
modify f s = done tt (f s)

-- What the system answers to one callback. `again` says that errno is EAGAIN when the callback begins;
-- a call that succeeds leaves errno. `fresh` is the client of a new connection, `keys_ok` says that
-- newMapKey and newMapValue give memory, `room` that a larger table is given, and `fuel` bounds the
-- loops.
pub record World : Type 0 where
  pub parser : Env
  pub again : Bool
  pub recv : Recv
  pub block : Realloc
  pub slots : Realloc
  pub sends : List Send
  pub dial : Dial
  pub fresh : Client
  pub keys_ok : Bool
  pub room : Bool
  pub fuel : ℕ

-- errno == EAGAIN behind recv.
abbrev pub again_behind : (before : Bool) → Recv → Bool
again_behind before again = Bool.true
again_behind before error = Bool.false
again_behind before closed = before
again_behind before (got bytes) = before

abbrev pub set_at : {A : Type 0} → (ℕ → A) → ℕ → A → ℕ → A
set_at f p a q = if q == p then a else f q

-- `*c`
abbrev pub peer_at : ℕ → M Peer
peer_at c s = if c == 0 then fault else elim (s.peers c) [ none ↦ fault | some p ↦ done p s ]

abbrev pub put_peer : ℕ → Peer → M (Unit {0})
put_peer c p = modify (λ s. record s { peers = set_at s.peers c (some p) })

abbrev pub on_peer : ℕ → (Client → Client) → M (Unit {0})
on_peer c f = do p ← peer_at c; put_peer c (record p { client = f p.client })

-- `c->isQuit = true`
abbrev pub quit : ℕ → M (Unit {0})
quit c = on_peer c (λ x. record x { is_quit = Bool.true })

-- `r->c->fd`
abbrev pub conn_fd : ℕ → M ℕ
conn_fd r s = elim (at s.rps r) [ none ↦ fault | some n ↦ done n.fd s ]

-- `*r->c`
abbrev pub conn_at : ℕ → M Client
conn_at r s = elim (at s.rps r) [ none ↦ fault | some n ↦ done (s.conns r) s ]

abbrev pub put_conn : ℕ → Client → M (Unit {0})
put_conn r c = modify (λ s. record s { conns = set_at s.conns r c })

-- The status of an action of the parser, and its client.
abbrev pub finish : (Client → M (Unit {0})) → Outcome (Unit {0}) → M Status
finish put (go u c) = put c >> pure s_ok
finish put (stop status c) = put c >> pure status
finish put Outcome.crash = λ s. fault
finish put Outcome.out_of_fuel = λ s. out_of_fuel

abbrev pub parse_peer : ℕ → Action (Unit {0}) → M Status
parse_peer c m = do p ← peer_at c; finish (λ x. put_peer c (record p { client = x })) (m p.client)

abbrev pub parse_conn : ℕ → Action (Unit {0}) → M Status
parse_conn r m = do conn ← conn_at r; finish (put_conn r) (m conn)

-- A change of an array that is not looked at, as a value.
abbrev pub array_of : ArrayRun → M BufferArray
array_of (ArrayRun.done status a) = pure a
array_of ArrayRun.fault = λ s. fault

-- A key of a table: a socket.
abbrev pub key_of : (fd : ℕ) → MapKey
key_of fd = record { h = fd; str = none }

-- The result of an operation on a table, which is put back.
abbrev pub in_table : (Hash → Server → Server) → Result → M ℕ
in_table put (Result.done value table) = modify (put table) >> pure value
in_table put Result.fault = λ s. fault
in_table put Result.out_of_fuel = λ s. out_of_fuel

abbrev pub put_c_to_r : Hash → Server → Server
put_c_to_r table s = record s { c_to_r = table }

abbrev pub put_r_to_c : Hash → Server → Server
put_r_to_c table s = record s { r_to_c = table }

-- hashGet, hashRemove and hashPut of cToR and rToC. The values are NULL or pointers to mapValues; their
-- structs are left out.
abbrev pub get_c_to_r : World → (fd : ℕ) → M ℕ
get_c_to_r w fd s = in_table put_c_to_r (hash_get w.fuel (key_of fd) s.c_to_r) s

abbrev pub get_r_to_c : World → (fd : ℕ) → M ℕ
get_r_to_c w fd s = in_table put_r_to_c (hash_get w.fuel (key_of fd) s.r_to_c) s

abbrev pub drop_c_to_r : World → (fd : ℕ) → M ℕ
drop_c_to_r w fd s = in_table put_c_to_r (hash_remove w.room w.fuel (key_of fd) s.c_to_r) s

abbrev pub drop_r_to_c : World → (fd : ℕ) → M ℕ
drop_r_to_c w fd s = in_table put_r_to_c (hash_remove w.room w.fuel (key_of fd) s.r_to_c) s

abbrev pub join_c_to_r : World → (fd r : ℕ) → M ℕ
join_c_to_r w fd r s = in_table put_c_to_r (hash_put w.room w.fuel (key_of fd) r s.c_to_r) s

abbrev pub join_r_to_c : World → (fd c : ℕ) → M ℕ
join_r_to_c w fd c s = in_table put_r_to_c (hash_put w.room w.fuel (key_of fd) c s.r_to_c) s

abbrev pub is_err : Status → Bool
is_err s_err = Bool.true
is_err s_ok = Bool.false
is_err s_nt = Bool.false
