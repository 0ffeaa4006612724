-- ===== src/Server/Socks/Numbers.antt =====
-- updateMin of src/net/server.c, and the part of readS that takes in the number of connections of another
-- worker.
use redis_pool.Base.{
  ℕ, zero, suc, ◌+◌, ◌%◌, ◌^◌, Bool, not, ◌||◌, Option, none, some, List, [], ◌∷◌, ltb, ◌==◌,
  if◌then◌else◌,
}
use redis_pool.Map.Tree.Store.{Tree}
use redis_pool.Map.Tree.Store as Store
use redis_pool.Map.Tree.Ops.{tree_get}
use redis_pool.Map.Hash.{Hash, new_hash, hash_get, hash_put}
use redis_pool.Map.Hash as Hash
use redis_pool.Server.{key_of}
use redis_pool.Server.Remove.{key_of_fd}
use redis_pool.Server.Socks.{Chan, Sock, SockRun, done, fault, out_of_fuel}

-- What the loop of updateMin knows: `read` is 0 until it has found a worker.
pub record Least : Type 0 where
  pub counts : ℕ → ℕ
  pub read : ℕ
  pub num : ℕ

abbrev set_count : (ℕ → ℕ) → (p n : ℕ) → ℕ → ℕ
set_count f p n q = if q == p then n else f q

-- One entry of rN; `num` is the address of its number, and `r` the descriptor of `min`.
abbrev pub least_of : (r min_num key num : ℕ) → Least → Least
least_of r min_num key num l =
    if key == r
    then record l { counts = set_count l.counts num min_num }
    else if ltb l.num (l.counts num)
    then l
    else record l { read = key; num = l.counts num }

-- FOREACH over the nodes from `i` on. `none` is the use of `min` where it is NULL.
unfoldable pub min_loop : (left i : ℕ) → Sock → Least → Option Least
min_loop zero i s l = some l
min_loop (suc left) i s l =
    let node = s.r_n.n i in
    let skipped = min_loop left (i + 1) s l in
    if not node.def then skipped else elim s.min [
      | none ↦ none
      | some m ↦ min_loop left (i + 1) s (least_of m.r s.min_num (node.key.h % 2 ^ 32) node.value l)
    ]

-- The channel that a value of rC points to: the values are places in `ch`, counted from 1.
chan_of : List Chan → ℕ → Option Chan
chan_of [] p = none
chan_of (c ∷ cs) zero = none
chan_of (c ∷ cs) (suc zero) = some c
chan_of (c ∷ cs) (suc (suc p)) = chan_of cs (suc p)

abbrev with_least : (num : ℕ) → Sock → Store.Run ℕ → SockRun
with_least num s (Store.done v t) = if v == 0 then done s else elim (chan_of s.ch v) [
  | none ↦ fault
  | some c ↦ done (record s { min_num = num; min = some c })
]
with_least num s Store.fault = fault
with_least num s Store.out_of_fuel = out_of_fuel

unfoldable pub update_min : (fuel : ℕ) → Sock → SockRun
unfolding min_loop chan_of
update_min fuel s =
    elim (min_loop s.r_n.avalid 0 s (record { counts = s.counts; read = 0; num = s.min_num })) [
      | none ↦ fault
      | some l ↦
          let s' : Sock = record s { counts = l.counts } in
          if l.read == 0
          then done s'
          else with_least l.num s' (tree_get fuel (key_of_fd l.read) s.r_c)
    ]

-- The answers of malloc for a new number: its address, 0 for NULL, and whether a key and a value are
-- given.
pub record NumWorld : Type 0 where
  pub address : ℕ
  pub key_ok : Bool
  pub value_ok : Bool
  pub room : Bool
  pub fuel : ℕ

abbrev enter_num : NumWorld → Sock → Hash.Result → SockRun
enter_num w s (Hash.done v table) = update_min w.fuel (record s { r_n = table })
enter_num w s Hash.fault = fault
enter_num w s Hash.out_of_fuel = out_of_fuel

-- A number that is told for the first time.
abbrev new_num : NumWorld → (fd num : ℕ) → Sock → SockRun
new_num w fd num s =
    if (w.address == 0) || (not w.key_ok || not w.value_ok)
    then done s
    else enter_num w (record s { counts = set_count s.counts w.address num })
        (hash_put w.room w.fuel (key_of fd) w.address s.r_n)

abbrev pub known_worker : NumWorld → (fd num : ℕ) → Sock → Store.Run ℕ → SockRun
known_worker w fd num s (Store.done v t) = if v == 0 then done s else new_num w fd num s
known_worker w fd num s Store.fault = fault
known_worker w fd num s Store.out_of_fuel = out_of_fuel

abbrev pub told : NumWorld → (fd num : ℕ) → Sock → Hash.Result → SockRun
told w fd num s (Hash.done v table) =
    if v == 0
    then known_worker w fd num s (tree_get w.fuel (key_of_fd fd) s.r_c)
    else update_min w.fuel (record s { counts = set_count s.counts v num })
told w fd num s Hash.fault = fault
told w fd num s Hash.out_of_fuel = out_of_fuel

-- The part of readS behind the test of the type: `num` is the number of connections of a worker.
unfoldable pub read_num : NumWorld → (fd num : ℕ) → Sock → SockRun
read_num w fd num s = told w fd num s (hash_get w.fuel (key_of fd) s.r_n)
