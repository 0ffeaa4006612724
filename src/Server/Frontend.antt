-- ===== src/Server/Frontend.antt =====
-- readC and writeC of src/net/server.c, the callbacks of the clients of users.
pub mod Reads
pub mod Sends
pub mod HandsOn
pub mod Busy
use redis_pool.Base.{
  ℕ, ◌+◌, ◌%◌, ◌^◌, none, some, Bool, true, false, not, ◌&&◌, ◌||◌, List, [], ◌∷◌, leb, ◌==◌,
  if◌then◌else◌,
}
use redis_pool.Types.Array.{Status, BufferArray}
use redis_pool.Types.Array.Transfer.{mv_array_buff}
use redis_pool.Client.{add_reply_cmd}
use redis_pool.Client.Read.{base_read}
use redis_pool.Client.Write.{base_write}
use redis_pool.Multibulk.{process_client}
use redis_pool.Server.{
  M, ◌>>=◌, ◌>>◌, pure, World, again_behind, peer_at, put_peer, on_peer, quit, conn_fd, conn_at,
  put_conn, parse_peer, get_c_to_r, join_c_to_r, join_r_to_c, is_err,
}
use redis_pool.Server.Remove.{give_back, del, borrow, remove_rc, remove_by_c, deal_remove_client}
use redis_pool.Server.Backend.{rest_array, trim_array, moved_with, sent_with}

-- "-Server is Busy"
abbrev pub server_is_busy : List ℕ
server_is_busy =
    b'-' ∷ b'S' ∷ b'e' ∷ b'r' ∷ b'v' ∷ b'e' ∷ b'r' ∷ b' ' ∷ b'i' ∷ b's' ∷ b' ' ∷ b'B' ∷ b'u' ∷ b's'
    ∷ b'y' ∷ []

-- mvArrayBuff from the client to the connection.
abbrev pub move_to_conn : World → (c r : ℕ) → M Status
move_to_conn w c r = do
  p ← peer_at c
  conn ← conn_at r
  moved_with
      (λ dest source.
        put_conn r (record conn { middle = dest })
        >> put_peer c (record p { client = record p.client { cmds = source } }))
      (mv_array_buff w.slots conn.middle p.client.cmds true)

-- Where the command cannot be handed on.
abbrev pub return_conn : World → (r c : ℕ) → M (Unit {0})
return_conn w r c = do p ← peer_at c; if p.client.is_block then del w r else give_back r; quit c

-- The entries of a connection that is not held over.
abbrev pub join : World → (fd c r : ℕ) → M (Unit {0})
join w fd c r = do rfd ← conn_fd r; u ← join_c_to_r w fd r; v ← join_r_to_c w rfd c; pure tt

abbrev pub count_cmds : (c r : ℕ) → M (Unit {0})
count_cmds c r = do
  p ← peer_at c
  conn ← conn_at r
  put_conn r (record conn {
    r_num = (conn.r_num + p.client.cmd_num) % 2 ^ 64;
    is_block = p.client.is_block;
  })
  put_peer c (record p { client = record p.client { cmd_num = 0 } })

-- A held client keeps its connection, and makes no entry.
abbrev pub enter : World → (fd c r : ℕ) (is_block : Bool) → M (Unit {0})
enter w fd c r true = count_cmds c r
enter w fd c r false = if w.keys_ok then join w fd c r >> count_cmds c r else (do del w r; quit c)

-- Behind the move of the commands.
unfoldable pub enter_both : World → (fd c r : ℕ) → M (Unit {0})
enter_both w fd c r = do p ← peer_at c; enter w fd c r p.client.is_block

-- With the connection `r`.
unfoldable pub send_to : World → (fd c r : ℕ) → M (Unit {0})
unfolding enter_both
send_to w fd c r = do
  parsed ← parse_peer c (process_client w.parser w.fuel)
  if is_err parsed then return_conn w r c else do
    moved ← move_to_conn w c r
    if is_err moved then return_conn w r c else enter_both w fd c r

-- Behind the failure of baseRead. The connection leaves the tables and the pool.
unfoldable pub read_failed : World → (fd c : ℕ) → M (Unit {0})
unfolding remove_rc deal_remove_client
read_failed w fd c = do
  r ← get_c_to_r w fd
  if r == 0 then pure tt else (do rfd ← conn_fd r; remove_rc w r (some rfd) 0 (some fd))
  deal_remove_client w fd
  remove_rc w 0 none c none

-- addReplyCmd at the end of readC; its status is not looked at.
abbrev pub busy : World → (c : ℕ) → M (Unit {0})
busy w c = do quit c; u ← parse_peer c (add_reply_cmd w.parser.os server_is_busy); pure tt

-- The connection that a held client has, or one of the pool.
unfoldable pub with_conn : World → (fd c : ℕ) → M (Unit {0})
unfolding send_to
with_conn w fd c = do
  p ← peer_at c
  if p.client.is_block
      then (do r ← get_c_to_r w fd; if r == 0 then quit c else send_to w fd c r)
      else (do r ← borrow w; if r == 0 then busy w c else send_to w fd c r)

-- `fd` is the socket of the event, and `c` its argument.
unfoldable pub read_c : World → (fd c : ℕ) → M (Unit {0})
unfolding with_conn read_failed
read_c w fd c = do
  p ← peer_at c
  if p.client.is_quit then pure tt else do
    let read = base_read w.block w.recv p.client
    put_peer c (record p { client = read.1 })
    if is_err read.0
        then read_failed w fd c
        else if not read.1.is_valid || (read.1.is_quit || again_behind w.again w.recv)
        then pure tt
        else with_conn w fd c

abbrev put_middle : ℕ → BufferArray → M (Unit {0})
put_middle c a = on_peer c (λ x. record x { middle = a })

abbrev remove_peer : World → (fd c : ℕ) → M (Unit {0})
remove_peer w fd c = do remove_by_c w c (some fd); deal_remove_client w fd

abbrev is_over : BufferArray → Bool
is_over a = leb a.wpos a.rpos

unfoldable pub write_c : World → (fd c : ℕ) → M (Unit {0})
unfolding remove_by_c deal_remove_client rest_array trim_array
write_c w fd c = do
  p ← peer_at c
  let cmds = p.client.middle
  if is_over cmds
      then (if p.client.is_quit
          then remove_peer w fd c
          else (do a ← rest_array w cmds; put_middle c a))
      else (do
        status ← sent_with p.fd (put_middle c) (base_write w.block w.sends cmds)
        p' ← peer_at c
        if is_err status
              || (not p'.client.is_valid || (is_over p'.client.middle && p'.client.is_quit))
            then remove_peer w fd c
            else (do a ← trim_array w is_over p'.client.middle; put_middle c a))
