-- ===== src/Server/Socks.antt =====
-- struct sock of src/net/s.h and its functions in src/net/server.c: the pipes between the workers, the
-- clients that wait to be handed to another worker, and the numbers of connections that the others
-- have told. A descriptor that is not open is negative; the events of the pipes are left out.
pub mod Accept
pub mod Numbers
pub mod Idle
use redis_pool.Base.{
  ℕ, zero, suc, ◌+◌, ◌-◌, ◌*◌, ◌/◌, ◌%◌, ◌^◌, Bool, true, false, not, ◌&&◌, ◌||◌, Option, none,
  some, List, [], ◌∷◌, ltb, leb, ◌==◌, if◌then◌else◌, replicate,
}
use redis_pool.Base.Int.{ℤ, pos, negsuc}
use redis_pool.Map.Tree.Store.{Tree}
use redis_pool.Map.Tree.Store as Store
use redis_pool.Map.Tree.Ops.{new_tree, tree_get}
use redis_pool.Map.Hash.{Hash, new_hash, hash_get, hash_put}
use redis_pool.Map.Hash as Hash
use redis_pool.Server.{key_of}
use redis_pool.Server.Remove.{key_of_fd}

-- struct chan; `ct` is the second of the last message.
pub record Chan : Type 0 where
  pub r : ℕ
  pub w : ℕ
  pub ct : ℕ

pub record ClientInfo : Type 0 where
  pub fd : ℤ
  pub ip : List ℕ

-- `counts` has the numbers that the values of rN point to.
pub record Sock : Type 0 where
  pub ch : List Chan
  pub min : Option Chan
  pub min_num : ℕ
  pub info : ℕ → ClientInfo
  pub used : ℕ
  pub p_to_c : Tree
  pub r_c : Tree
  pub r_n : Hash
  pub counts : ℕ → ℕ
  pub interval : ℕ

-- server.h
abbrev pub max_info_num : ℕ
max_info_num = 5

abbrev pub sock_ch_fd : ℕ
sock_ch_fd = 1

abbrev pub sock_ch_rn : ℕ
sock_ch_rn = 2

pub data SockRun : Type 0 where
  done : Sock → SockRun
  fault : SockRun
  out_of_fuel : SockRun

-- `wild` frees pointers that were never set.
pub data NewSock : Type 0 where
  made : Sock → NewSock
  no_sock : NewSock
  wild : NewSock

-- The answers of the system in newSock: the pipes, `none` for a failure of one of the calls for it, with
-- the time; and whether malloc gives the struct, and the rest.
pub record SockWorld : Type 0 where
  pub sock_ok : Bool
  pub ch_ok : Bool
  pub pipes : List (Option Chan)
  pub info_ok : Bool
  pub p_to_c_ok : Bool
  pub r_c_ok : Bool
  pub r_n_ok : Bool
  pub garbage : ℕ → ClientInfo

-- The loop over the channels, of which `num` are left.
open_pipes : (num : ℕ) → List (Option Chan) → Option (List Chan)
open_pipes zero pipes = some []
open_pipes (suc num) [] = none
open_pipes (suc num) (none ∷ pipes) = none
open_pipes (suc num) (some ch ∷ pipes) = elim (open_pipes num pipes) [
  | none ↦ none
  | some chs ↦ some (ch ∷ chs)
]

-- ceil(sec / 2.0)
abbrev half_up : ℕ → ℕ
half_up sec = (sec + 1) / 2

abbrev pub sock_of : SockWorld → (num interval : ℕ) → List Chan → Sock
sock_of w num interval ch = record {
  ch = ch;
  min = none;
  min_num = 0;
  info = w.garbage;
  used = 0;
  p_to_c = new_tree num;
  r_c = new_tree num;
  r_n = new_hash;
  counts = λ p. 0;
  interval = half_up interval;
}

-- Only the last call fails with every pointer set, as newHash sets its own.
unfoldable pub new_sock : SockWorld → (num interval : ℕ) → NewSock
unfolding open_pipes
new_sock w num interval =
    if not w.sock_ok then no_sock else if not w.ch_ok then wild else elim (open_pipes num w.pipes) [
      | none ↦ wild
      | some ch ↦
          if not w.info_ok || (not w.p_to_c_ok || not w.r_c_ok)
          then wild
          else if not w.r_n_ok
          then no_sock
          else made (sock_of w num interval ch)
    ]

-- What writeS sends, or sends and closes where the pipe does not take it.
pub data Message : Type 0 where
  told_num : (num : ℕ) → Message
  handed : (fd : ℕ) (ip : List ℕ) → Message
  refused : (fd : ℕ) → Message

-- writeS for a timer, whose descriptor is negative: `now` is the time, and `i` the channel.
unfoldable pub write_timer : (now conns : ℕ) → Chan → Sock → Option (Chan × Message)
write_timer now conns ch s =
    if ltb (now - ch.ct) s.interval then none else some (record ch { ct = now }, told_num conns)

-- memmove moves MAX_INFO_NUM - 1 bytes, which are the descriptor of the second entry; then that of the
-- first is reset.
abbrev pub next_info : Sock → Sock
next_info s = record s {
  used = s.used - 1;
  info = λ i. if i == 0 then record (s.info 0) { fd = negsuc 0 } else s.info i;
  min_num = (s.min_num + 1) % 2 ^ 32;
}

abbrev hand_over : (all_sent : Bool) → Sock → (fd : ℤ) → Sock × List Message
hand_over all_sent s (negsuc n) = (s, [])
hand_over all_sent s (pos n) =
    if n == 0
    then (s, [])
    else if all_sent
    then (next_info s, handed n (s.info 0).ip ∷ [])
    else (s, refused n ∷ [])

-- writeS for the pipe `fd`; `all_sent` says that send takes the whole message.
unfoldable pub write_s : (all_sent : Bool) (fd : ℕ) → Sock → Sock × List Message
write_s all_sent fd s = elim s.min [
  | none ↦ (s, [])
  | some m ↦
      if (s.used == 0) || not (m.w == fd) then (s, []) else hand_over all_sent s (s.info 0).fd
]
