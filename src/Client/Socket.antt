-- ===== src/Client/Socket.antt =====
-- The options of a socket in src/net/client.c: block, setReuse, and the functions on them, over the answers
-- of fcntl and setsockopt. Of the flags of a descriptor only O_NONBLOCK is kept.
use redis_pool.Base.{ℕ, Bool, true, false, not, Option, none, some, ◌==◌, if◌then◌else◌}
use redis_pool.Types.Array.{Status, s_err, s_ok}

-- What F_GETFL answers, none for an error, and whether F_SETFL succeeds.
pub record Flags : Type 0 where
  pub non_block : Option Bool
  pub set_ok : Bool

-- The status, and O_NONBLOCK as it is set, if it is.
unfoldable pub block : Flags → (fd : ℕ) (is_block : Bool) → Status × Option Bool
block f fd is_block = if fd == 0 then (s_ok, none) else elim f.non_block [
  | none ↦ (s_err, none)
  | some old ↦ if f.set_ok then (s_ok, some (not is_block)) else (s_err, none)
]

unfoldable pub set_non_block : Flags → (fd : ℕ) → Status × Option Bool
unfolding block
set_non_block f fd = block f fd false

unfoldable pub set_block : Flags → (fd : ℕ) → Status × Option Bool
unfolding block
set_block f fd = block f fd true

-- setNonBlockByFd and setBlockByFd, which make a client for the descriptor.
unfoldable pub set_non_block_by_fd : Flags → (fd : ℕ) → Status × Option Bool
unfolding block
set_non_block_by_fd f fd = block f fd false

unfoldable pub set_block_by_fd : Flags → (fd : ℕ) → Status × Option Bool
unfolding block
set_block_by_fd f fd = block f fd true

-- setReuse where the system has SO_REUSEPORT.
unfoldable pub set_reuse : (addr_ok port_ok : Bool) → Status
set_reuse addr_ok port_ok = if not addr_ok then s_err else if not port_ok then s_err else s_ok
