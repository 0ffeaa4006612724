-- ===== src/Server/Backend.antt =====
-- readR and writeR of src/net/server.c, the callbacks of the connections to redis.
pub mod Dangling
pub mod Replies
pub mod HandsBack
use redis_pool.Base.{
  ℕ, ◌+◌, ◌*◌, Bool, true, not, ◌||◌, none, some, ◌∷◌, ltb, leb, ◌==◌, if◌then◌else◌,
}
use redis_pool.Types.Buffer.{sub64, srange_buff}
use redis_pool.Types.Array.{
  Status, BufferArray, per_buf_array_size, resize_array_buff, srange_array_buff, clear_array_buff,
}
use redis_pool.Types.Array.Transfer.{MoveRun, ends, crash, mv_array_buff}
use redis_pool.Client.Read.{base_read}
use redis_pool.Client.Write.{WriteRun, wrote, fault, unanswered, signed64, base_write}
use redis_pool.Multibulk.Redis.{process_redis}
use redis_pool.Server.{
  Peer, Server, M, ◌>>=◌, ◌>>◌, pure, gets, modify, World, again_behind, peer_at, put_peer, quit,
  conn_fd, conn_at, put_conn, parse_conn, array_of, get_r_to_c, drop_r_to_c, drop_c_to_r, is_err,
}
use redis_pool.Server as Server
use redis_pool.Server.Remove.{give_back, remove_rc}

-- resizeArrayBuff to PER_BUF_ARRAY_SIZE places; its result is not looked at.
abbrev pub shrink_array : World → BufferArray → M BufferArray
shrink_array w a =
    array_of (resize_array_buff w.slots (signed64 (sub64 per_buf_array_size a.max)) a)

abbrev pub srange_array : (n : ℕ) → BufferArray → M BufferArray
srange_array n a = array_of (srange_array_buff n a)

-- The two tests where there is nothing to write.
unfoldable pub rest_array : World → BufferArray → M BufferArray
rest_array w a = do
  a' ← (if ltb 0 a.wpos then srange_array a.wpos a else pure a)
  if leb (per_buf_array_size * 2) a'.max then shrink_array w a' else pure a'

-- The two tests behind a write; `is_over` is the second.
unfoldable pub trim_array : World → (is_over : BufferArray → Bool) → BufferArray → M BufferArray
trim_array w is_over a = do
  a' ←
      (if leb per_buf_array_size a.rpos
        then (do b ← srange_array per_buf_array_size a; shrink_array w b)
        else pure a)
  if is_over a' then array_of (clear_array_buff a') else pure a'

-- Two changed arrays and the status of mvArrayBuff.
abbrev pub moved_with : (BufferArray → BufferArray → M (Unit {0})) → MoveRun → M Status
moved_with put (ends status dest source) = put dest source >> pure status
moved_with put crash = λ s. Server.fault

-- The bytes that baseWrite has sent, with the array behind it.
abbrev pub sent_with : (fd : ℕ) → (BufferArray → M (Unit {0})) → WriteRun → M Status
sent_with fd put (wrote status middle out) = do
  put middle
  modify (λ s. record s { out = (fd, out) ∷ s.out })
  pure status
sent_with fd put fault = λ s. Server.fault
sent_with fd put unanswered = λ s. Server.out_of_fuel

abbrev pub put_middle : ℕ → BufferArray → M (Unit {0})
put_middle r a = do conn ← conn_at r; put_conn r (record conn { middle = a })

-- mvArrayBuff from the connection to the client `c`.
abbrev pub move_to_peer : World → (c r : ℕ) → M Status
move_to_peer w c r = do
  p ← peer_at c
  conn ← conn_at r
  moved_with
      (λ dest source.
        put_peer c (record p { client = record p.client { middle = dest } })
        >> put_conn r (record conn { cmds = source }))
      (mv_array_buff w.slots p.client.middle conn.cmds true)

abbrev give_up : World → (r c fd : ℕ) → M (Unit {0})
give_up w r c fd = do quit c; p ← peer_at c; remove_rc w r (some fd) 0 (some p.fd)

-- Behind the last reply to the commands: the connection goes back to the pool.
abbrev release : World → (r c : ℕ) → M (Unit {0})
release w r c = do
  rfd ← conn_fd r
  p ← peer_at c
  v ← drop_r_to_c w rfd
  u ← drop_c_to_r w p.fd
  give_back r

-- srangeBuff and what follows it.
unfoldable pub end_read_r : World → (r c : ℕ) → M (Unit {0})
end_read_r w r c = do
  conn ← conn_at r
  put_conn r (
      let moved = srange_buff conn.cmd conn.cmd.rpos in
      record conn { cmd = moved.buffer; stray = conn.stray + moved.stray; cmd_num = 0 })
  if conn.is_block then pure tt else (if not (conn.r_num == 0) then pure tt else release w r c)

-- From the test of errno on.
abbrev pub reply_to : World → (r c fd : ℕ) → M (Unit {0})
reply_to w r c fd = do
  parsed ← parse_conn r (process_redis w.parser)
  if is_err parsed then give_up w r c fd else do
    moved ← move_to_peer w c r
    if is_err moved then give_up w r c fd else end_read_r w r c

abbrev read_for : World → (r c fd : ℕ) → M (Unit {0})
read_for w r c fd = do
  conn ← conn_at r
  let read = base_read w.block w.recv conn
  put_conn r read.1
  if is_err read.0
      then give_up w r c fd
      else if again_behind w.again w.recv
      then pure tt
      else reply_to w r c fd

abbrev is_gone : (c : ℕ) → M Bool
is_gone c =
    if c == 0 then pure true else do p ← peer_at c; pure (not p.client.is_valid || p.client.is_quit)

-- `fd` is the socket of the event, and `r` its argument.
unfoldable pub read_r : World → (fd r : ℕ) → M (Unit {0})
unfolding end_read_r remove_rc
read_r w fd r = do
  c ← get_r_to_c w fd
  gone ← is_gone c
  if gone then remove_rc w r (some fd) 0 none else read_for w r c fd

-- Behind a write that fails.
unfoldable pub write_failed : World → (fd r : ℕ) → M (Unit {0})
unfolding remove_rc
write_failed w fd r = do
  remove_rc w r (some fd) 0 none
  c ← drop_r_to_c w fd
  if c == 0 then pure tt else quit c

unfoldable pub write_r : World → (fd r : ℕ) → M (Unit {0})
unfolding write_failed rest_array trim_array
write_r w fd r = do
  conn ← conn_at r
  let cmds = conn.middle
  if leb cmds.wpos cmds.rpos then (do a ← rest_array w cmds; put_middle r a) else (do
    socket ← conn_fd r
    status ← sent_with socket (put_middle r) (base_write w.block w.sends cmds)
    if is_err status then write_failed w fd r else do
      conn' ← conn_at r
      a ← trim_array w (λ x. x.wpos == x.rpos) conn'.middle
      put_middle r a)
