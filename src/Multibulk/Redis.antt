-- ===== src/Multibulk/Redis.antt =====
-- processRedis of src/proto/multibulk.c: the replies of redis.
use redis_pool.Base.{ℕ, zero, suc, ◌+◌, true, false, ◌||◌, ltb, ◌==◌, if◌then◌else◌, drop}
use redis_pool.Types.Buffer.{sub64}
use redis_pool.Types.Array.{s_ok}
use redis_pool.Client.{
  Action, ◌>>=◌, ◌>>◌, pure, fail, gets, on_return, modify, when, byte_at, bytes_at,
  add_reply_by_size, add_reply_cmd,
}
use redis_pool.Multibulk.Messages.{colon_numeric, unexpected_line}
use redis_pool.Multibulk.{
  Env, found, absent, outside, Search, find_cr, set_rpos, set_pendding, no_line, number_of_line,
  is_positive, to_uint64, waiting_is_ok, reset_multi, process_cmds,
}

abbrev pub add_line : Env → (offset : ℕ) → Action (Unit {0})
add_line env offset = do
  rpos ← gets (λ c. c.cmd.rpos)
  line ← bytes_at rpos offset
  add_reply_by_size env.os line
  set_rpos (rpos + offset + 2)

-- The switch on the first byte of a reply.
unfoldable pub redis_line : Env → (first offset : ℕ) → Action (Unit {0})
redis_line env first offset =
    if (first == b'+') || (first == b'-')
    then add_line env offset
    else if first == b':'
    then (do number_of_line env colon_numeric offset; add_line env offset)
    else if first == b'*'
    then (do
      n ← number_of_line env colon_numeric offset
      when (is_positive n) (modify (λ c. record c { multi_bulk_len = to_uint64 n }))
      add_line env offset)
    else if first == b'$'
    then modify (λ c. record c { multi_bulk_len = 1 })
    else (do add_reply_cmd env.os unexpected_line; add_line env offset)

abbrev pub redis_found : Env → Search → Action (Unit {0})
redis_found env outside = fail
redis_found env absent = no_line env s_ok
redis_found env (found n) = do
  rpos ← gets (λ c. c.cmd.rpos)
  first ← byte_at rpos
  redis_line env first n

-- One turn of the loop of processRedis.
unfoldable pub process_reply : Env → Action (Unit {0})
process_reply env = do
  set_pendding true
  at_line ← gets (λ c. c.multi_bulk_len == 0)
  when at_line (λ c. redis_found env (find_cr (drop c.cmd.rpos c.cmd.buf)) c)
  has_bulks ← gets (λ c. ltb 0 c.multi_bulk_len)
  when has_bulks (do on_return (process_cmds env false) waiting_is_ok; reset_multi)
  modify (λ c. record c { cmds = record c.cmds { pendding = false }; r_num = sub64 c.r_num 1 })

-- The loop of processRedis, which `left` = rNum bounds. Its end is the result S_OK.
unfoldable pub process_replies : Env → (left : ℕ) → Action (Unit {0})
process_replies env zero = pure tt
process_replies env (suc left) = do process_reply env; process_replies env left

unfoldable pub process_redis : Env → Action (Unit {0})
process_redis env c = process_replies env c.r_num c
