-- ===== src/Multibulk.antt =====
-- src/proto/multibulk.c: the parser of the redis protocol, which copies the commands of a client and
-- the replies of redis from the bytes read to the buffers of `cmds`. The calls of debug are left out.
pub mod Messages
pub mod Redis
pub mod Line
pub mod Name
pub mod Copy
pub mod Pendding
pub mod Command
pub mod Forwarded
pub mod Forward
pub mod Arrives
pub mod Refuses
pub mod Overflow
pub mod StatusLine
pub mod Samples
mod Tests
use redis_pool.Base.{
  ℕ, zero, suc, ◌+◌, ◌-◌, ◌*◌, ◌%◌, ◌^◌, Bool, true, false, not, ◌&&◌, ◌||◌, Option, none, some,
  List, [], ◌∷◌, ltb, leb, ◌==◌, if◌then◌else◌, drop, length,
}
use redis_pool.Base.Int.{ℤ, pos, negsuc}
use redis_pool.Types.Number.{parse_int}
use redis_pool.Types.Buffer.{sub64, srange_buff, is_buff_eof}
use redis_pool.Types.Array.{Status, s_err, s_ok, s_nt, Alloc}
use redis_pool.Map.Hash.{Hash, MapKey, is_exist_key}
use redis_pool.Client.{
  Client, Outcome, go, stop, crash, out_of_fuel, Action, ◌>>=◌, ◌>>◌, pure, return, fail, gets,
  on_return, modify, when, byte_at, bytes_at, add_reply_by_size, add_reply_cmd,
}
use redis_pool.Multibulk.Messages.{
  start_star, start_dollar, invalid_bulk_len, end_rn, too_big, must_be_numeric, colon_numeric,
  unexpected_line,
}

-- base.h
abbrev pub max_inline_size : ℕ
max_inline_size = 1024 * 64

-- The allocator's answers, and the tables of the pool, NULL where there is none.
pub record Env : Type 0 where
  pub os : ℕ → Alloc
  pub block_cmds : Option Hash
  pub release_cmds : Option Hash

-- What strchr(_, '\r') finds. It does not stop before the end of the block: `outside`.
pub data Search : Type 0 where
  found : (offset : ℕ) → Search
  absent : Search
  outside : Search

abbrev farther : Search → Search
farther (found n) = found (suc n)
farther absent = absent
farther outside = outside

unfoldable pub find_cr : List ℕ → Search
find_cr [] = outside
find_cr (x ∷ xs) = if x == b'\r' then found 0 else if x == 0 then absent else farther (find_cr xs)

abbrev pub set_rpos : ℕ → Action (Unit {0})
set_rpos n = modify (λ c. record c { cmd = record c.cmd { rpos = n % 2 ^ 64 } })

abbrev pub set_pendding : Bool → Action (Unit {0})
set_pendding p = modify (λ c. record c { cmds = record c.cmds { pendding = p } })

-- addReplyCmd and `return S_ERR`.
abbrev pub refuse : {A : Type 0} → Env → List ℕ → Action A
refuse env text = do add_reply_cmd env.os text; return s_err

-- The tests where there is no new line.
abbrev pub no_line : {A : Type 0} → Env → Status → Action A
no_line env s c = if ltb max_inline_size c.cmd.wpos then refuse env too_big c else stop s c

abbrev pub numeric : Env → List ℕ → Option ℤ → Action ℤ
numeric env text (some n) = pure n
numeric env text none = refuse env text

-- parseInt behind the first byte of a line of `offset` bytes.
abbrev pub number_of_line : Env → List ℕ → (offset : ℕ) → Action ℤ
number_of_line env text offset c =
    numeric env text (parse_int (drop (c.cmd.rpos + 1) c.cmd.buf) (sub64 offset 1)) c

abbrev pub parse_found : Env → Search → Action (ℤ × ℕ)
parse_found env outside = fail
parse_found env absent = no_line env s_nt
parse_found env (found n) = do
  rpos ← gets (λ c. c.cmd.rpos)
  next ← byte_at (rpos + n + 1)
  when (not (next == b'\n')) (refuse env end_rn)
  num ← number_of_line env must_be_numeric n
  set_rpos (rpos + n + 2)
  pure (num, sub64 n 1)

-- The number and the length of its text.
unfoldable pub parse_input_buff_num : Env → Action (ℤ × ℕ)
parse_input_buff_num env c = parse_found env (find_cr (drop c.cmd.rpos c.cmd.buf)) c

-- The bytes of the line that parseInputBuffNum has read.
abbrev pub add_header : Env → (len : ℕ) → Action (Unit {0})
add_header env len = do
  rpos ← gets (λ c. c.cmd.rpos)
  header ← bytes_at (rpos - len - 3) (len + 1)
  add_reply_by_size env.os header

abbrev pub is_positive : ℤ → Bool
is_positive (pos n) = ltb 0 n
is_positive (negsuc n) = false

-- As uint64_t.
abbrev pub to_uint64 : ℤ → ℕ
to_uint64 (pos n) = n % 2 ^ 64
to_uint64 (negsuc n) = sub64 0 (n + 1)

-- The part of processCmds that reads the line with the length of an argument.
unfoldable pub bulk_header : Env → (is_client : Bool) → Action (Unit {0})
bulk_header env is_client = do
  rpos ← gets (λ c. c.cmd.rpos)
  first ← byte_at rpos
  when (not (first == b'$')) (refuse env start_dollar)
  (n, len) ← parse_input_buff_num env
  when (not (is_positive n) && is_client) (refuse env invalid_bulk_len)
  when (is_positive n) (modify (λ c. record c { bulk_len = to_uint64 n }))
  add_header env len

-- What strncpy leaves in tmpCmd: the bytes up to the first zero.
unfoldable pub c_string : List ℕ → List ℕ
c_string [] = []
c_string (x ∷ xs) = if x == 0 then [] else x ∷ c_string xs

-- sizeof(tmpCmd)
abbrev pub tmp_cmd_size : ℕ
tmp_cmd_size = 60

-- isExistKey. A name that fills tmpCmd has no end.
abbrev pub is_listed : Option Hash → (name : List ℕ) → Action Bool
is_listed none name = pure false
is_listed (some table) name = if leb tmp_cmd_size (length name) then fail else λ c.
    elim (is_exist_key (table.max + 1) table (record { h = 0; str = some name })) [
      | none ↦ out_of_fuel
      | some b ↦ go b c
    ]

abbrev pub set_block : Env → Bool → (name : List ℕ) → Action (Unit {0})
set_block env true name = do
  released ← is_listed env.release_cmds name
  modify (λ c. record c { is_block = not released })
set_block env false name = do
  blocked ← is_listed env.block_cmds name
  modify (λ c. record c { is_block = blocked })

-- strncpy writes as many bytes as the argument has.
unfoldable pub check_command : Env → (arg : List ℕ) → Action (Unit {0})
unfolding c_string
check_command env arg =
    if ltb tmp_cmd_size (length arg) then fail else λ c. set_block env c.is_block (c_string arg) c

abbrev pub expect : Env → (offset byte : ℕ) → Action (Unit {0})
expect env offset byte = do b ← byte_at offset; when (not (b == byte)) (refuse env end_rn)

-- `len` is bulkLen, and `after` the place behind the argument.
abbrev pub copy_arg : Env → (is_client : Bool) (len after : ℕ) → Action (Unit {0})
copy_arg env is_client len after = do
  set_rpos after
  expect env after b'\r'
  expect env (after + 1) b'\n'
  arg ← bytes_at (after - len) len
  when_first ← gets (λ c. (c.argc == 0) && is_client)
  when when_first (check_command env arg)
  add_reply_by_size env.os arg
  set_rpos (after + 2)

unfoldable pub copy_bulk : Env → (is_client : Bool) (len : ℕ) → Action (Unit {0})
copy_bulk env is_client len c =
    if ltb (sub64 c.cmd.wpos c.cmd.rpos) ((len + 2) % 2 ^ 64)
    then stop s_nt c
    else copy_arg env is_client len ((c.cmd.rpos + len) % 2 ^ 64) c

-- The part of processCmds that copies an argument of `bulk_len` bytes.
unfoldable pub bulk_body : Env → (is_client : Bool) → Action (Unit {0})
unfolding copy_bulk
bulk_body env is_client c = copy_bulk env is_client c.bulk_len c

-- One turn of the loop of processCmds.
unfoldable pub process_bulk : Env → (is_client : Bool) → Action (Unit {0})
process_bulk env is_client = do
  at_header ← gets (λ c. c.bulk_len == 0)
  when at_header (bulk_header env is_client)
  has_bytes ← gets (λ c. ltb 0 c.bulk_len)
  when has_bytes (bulk_body env is_client)
  modify (λ c. record c {
    bulk_len = 0;
    multi_bulk_len = sub64 c.multi_bulk_len 1;
    argc = (c.argc + 1) % 2 ^ 32;
  })

-- The loop, which `left` = multiBulkLen bounds.
unfoldable pub cmds_loop : Env → (is_client : Bool) (left : ℕ) → Action (Unit {0})
cmds_loop env is_client zero = pure tt
cmds_loop env is_client (suc left) = do process_bulk env is_client; cmds_loop env is_client left

-- Behind the loop.
unfoldable pub end_cmds : Action (Unit {0})
end_cmds c =
    let w = srange_buff c.cmd c.cmd.rpos in
    go tt (record c {
      argc = 0;
      cmd_num = (c.cmd_num + 1) % 2 ^ 64;
      cmds = record c.cmds { pendding = false };
      cmd = w.buffer;
      stray = c.stray + w.stray;
    })

unfoldable pub process_cmds : Env → (is_client : Bool) → Action (Unit {0})
process_cmds env is_client = do
  set_pendding true
  left ← gets (λ c. c.multi_bulk_len)
  cmds_loop env is_client left
  end_cmds

-- S_NT is not an error for the callers.
abbrev pub waiting_is_ok : {A : Type 0} → Status → Action A
waiting_is_ok s_err = return s_err
waiting_is_ok s_ok = return s_ok
waiting_is_ok s_nt = return s_ok

unfoldable pub client_header : Env → Action (Unit {0})
client_header env = do
  rpos ← gets (λ c. c.cmd.rpos)
  first ← byte_at rpos
  when (not (first == b'*')) (refuse env start_star)
  (n, len) ← on_return (parse_input_buff_num env) waiting_is_ok
  modify (λ c. record c { multi_bulk_len = to_uint64 n })
  add_header env len

abbrev pub reset_multi : Action (Unit {0})
reset_multi = modify (λ c. record c { multi_bulk_len = 0 })

-- One turn of the loop of processClient.
unfoldable pub process_command : Env → Action (Unit {0})
process_command env = do
  at_header ← gets (λ c. c.multi_bulk_len == 0)
  when at_header (client_header env)
  on_return (process_cmds env true) waiting_is_ok
  reset_multi

-- The end of the loop is the result S_OK.
unfoldable pub process_client : Env → (fuel : ℕ) → Action (Unit {0})
process_client env zero c = out_of_fuel
process_client env (suc fuel) c = elim (is_buff_eof c.cmd) [
  | true ↦ go tt c
  | false ↦ (process_command env >> process_client env fuel) c
]
