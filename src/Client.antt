-- ===== src/Client.antt =====
-- struct client of src/net/s.h and src/net/client.c: a connection with the bytes that it has read
-- and the commands that are put together from them. A C function on a client is an action: it comes
-- to its end, or returns early with a status. The sockets, the address and the events are left out.
pub mod Socket
pub mod Steps
pub mod Reply
pub mod Read
pub mod Write
mod Tests
use redis_pool.Base.{
  ℕ, zero, suc, ◌+◌, ◌-◌, ◌*◌, ◌%◌, ◌^◌, Bool, true, false, Option, none, some, List, [], ◌∷◌, ltb,
  leb, if◌then◌else◌, take, drop, length,
}
use redis_pool.Types.Buffer.{Buffer, new_buff}
use redis_pool.Types.Array.{
  Status, s_err, s_ok, s_nt, BufferArray, new_buff_arr, done, fault, Alloc, add_buffer,
}

-- `calls` counts the calls of addBuffer, and `stray` the bytes that srangeBuff wrote outside of the
-- block of `cmd`.
pub record Client : Type 0 where
  pub cmd : Buffer
  pub cmds : BufferArray
  pub middle : BufferArray
  pub argc : ℕ
  pub is_eof : Bool
  pub cmd_num : ℕ
  pub r_num : ℕ
  pub is_valid : Bool
  pub is_quit : Bool
  pub is_block : Bool
  pub multi_bulk_len : ℕ
  pub bulk_len : ℕ
  pub calls : ℕ
  pub stray : ℕ

-- The fields that newClient does not set have what malloc left there.
pub record Garbage : Type 0 where
  pub is_block : Bool
  pub multi_bulk_len : ℕ
  pub bulk_len : ℕ

-- NULL where malloc gives no client. newClient does not look at the pointers that newBuff and
-- newBuffArr give: `no_part` is a client with one of them NULL.
pub data Created : Type 0 where
  created : Client → Created
  no_part : Created
  no_client : Created

abbrev joined : Garbage → Option Buffer → Option BufferArray → Option BufferArray → Created
joined g (some cmd) (some cmds) (some middle) = created (record {
  cmd = cmd;
  cmds = cmds;
  middle = middle;
  argc = 0;
  is_eof = false;
  cmd_num = 0;
  r_num = 0;
  is_valid = true;
  is_quit = false;
  is_block = g.is_block;
  multi_bulk_len = g.multi_bulk_len;
  bulk_len = g.bulk_len;
  calls = 0;
  stray = 0;
})
joined g (some cmd) (some cmds) none = no_part
joined g (some cmd) none middle = no_part
joined g none cmds middle = no_part

unfoldable pub new_client : (client_ok : Bool) → Garbage → (cmd cmds middle : Bool × Bool) → Created
new_client false g cmd cmds middle = no_client
new_client true g cmd cmds middle =
    joined g (new_buff cmd.0 cmd.1) (new_buff_arr cmds.0 cmds.1) (new_buff_arr middle.0 middle.1)

-- `stop` is an early return, and `crash` an access outside of the memory that is allocated.
pub data Outcome (A : Type 0) : Type 0 where
  go : A → Client → Outcome A
  stop : Status → Client → Outcome A
  crash : Outcome A
  out_of_fuel : Outcome A

abbrev pub Action : Type 0 → Type 0
Action A = Client → Outcome A

abbrev pub continue : {A B : Type 0} → Outcome A → (A → Action B) → Outcome B
continue (go a c) f = f a c
continue (stop s c) f = stop s c
continue crash f = crash
continue out_of_fuel f = out_of_fuel

infixl 5 ◌>>=◌ ◌>>◌
abbrev pub ◌>>=◌ : {A B : Type 0} → Action A → (A → Action B) → Action B
◌>>=◌ m f c = continue (m c) f

abbrev pub ◌>>◌ : {A B : Type 0} → Action A → Action B → Action B
m >> k = m >>= λ _. k

module _ {A : Type 0} where
  abbrev pub pure : A → Action A
  pure a c = go a c

  abbrev pub return : Status → Action A
  return s c = stop s c

  abbrev pub fail : Action A
  fail c = crash

  abbrev pub gets : (Client → A) → Action A
  gets f c = go (f c) c

-- A call whose early return the caller answers.
abbrev pub answer : {A : Type 0} → Outcome A → (Status → Action A) → Outcome A
answer (go a c) handler = go a c
answer (stop s c) handler = handler s c
answer crash handler = crash
answer out_of_fuel handler = out_of_fuel

abbrev pub on_return : {A : Type 0} → Action A → (Status → Action A) → Action A
on_return m handler c = answer (m c) handler

abbrev pub modify : (Client → Client) → Action (Unit {0})
modify f c = go tt (f c)

abbrev pub when : Bool → Action (Unit {0}) → Action (Unit {0})
when true m = m
when false m = pure tt

-- The byte of `cmd` at an offset, and `n` bytes from an offset on.
unfoldable pub byte_at : (offset : ℕ) → Action ℕ
byte_at offset c = elim (drop offset c.cmd.buf) [ [] ↦ crash | x ∷ xs ↦ go x c ]

unfoldable pub bytes_at : (offset n : ℕ) → Action (List ℕ)
bytes_at offset n c =
    if leb (offset + n) (length c.cmd.buf) then go (take n (drop offset c.cmd.buf)) c else crash

-- `_NL`
abbrev pub nl : List ℕ
nl = b'\r' ∷ b'\n' ∷ []

-- One call of addBuffer, whose status is not looked at. `os n` answers the n-th call.
unfoldable pub add_part : (os : ℕ → Alloc) → List ℕ → Action (Unit {0})
add_part os reply c = elim (add_buffer (os c.calls) c.cmd_num reply c.cmds) [
  | done s a ↦ go tt (record c { cmds = a; calls = c.calls + 1 })
  | fault ↦ crash
]

unfoldable pub add_reply_by_size : (os : ℕ → Alloc) → List ℕ → Action (Unit {0})
unfolding add_part
add_reply_by_size os reply = do add_part os reply; add_part os nl

-- The macro addReplyCmd of client.h.
abbrev pub add_reply_cmd : (os : ℕ → Alloc) → List ℕ → Action (Unit {0})
add_reply_cmd os reply = do
  add_reply_by_size os reply
  modify (λ c. record c { cmd_num = (c.cmd_num + 1) % 2 ^ 64 })
