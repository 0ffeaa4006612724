-- ===== src/Client/Write.antt =====
-- baseWrite of src/net/client.c, which sends the buffers of `middle` one after the other. send is a
-- parameter: the list of its answers.
pub mod Pending
pub mod Sends
pub mod Forgets
use redis_pool.Base.{
  ℕ, zero, suc, ◌+◌, ◌*◌, ◌-◌, ◌%◌, ◌^◌, Bool, true, false, ◌||◌, ◌&&◌, none, some, List, [], ◌∷◌,
  ◌++◌, ltb, leb, ◌==◌, if◌then◌else◌, length, take, drop,
}
use Prim.Native.Nat.{min}
use redis_pool.Base.Int.{ℤ, pos, negsuc}
use redis_pool.Types.Memory.{Realloc, zeros, write_at}
use redis_pool.Types.Buffer.{Buffer, per_iobuf_size, sub64, srange_buff, resize_buff}
use redis_pool.Types.Buffer.Content.{content}
use redis_pool.Types.Array.{Status, s_err, s_ok, Slot, null, stale, held, BufferArray, set_slot}

-- The answer of send: EAGAIN, another error, or the number of bytes taken, at most as many as given.
pub data Send : Type 0 where
  again error : Send
  sent : ℕ → Send

-- `out` has the bytes that send took. `unanswered` is a call of send without an answer.
pub data WriteRun : Type 0 where
  wrote : Status → (middle : BufferArray) (out : List ℕ) → WriteRun
  fault : WriteRun
  unanswered : WriteRun

-- base.h
abbrev pub per_min_size : ℕ
per_min_size = 128

-- wpos - rpos as the 32 bits of an int32_t.
abbrev pub length_bits : Buffer → ℕ
length_bits cmd = sub64 cmd.wpos cmd.rpos % 2 ^ 32

abbrev pub is_sent : Buffer → Bool
is_sent cmd =
    (cmd.used == 0)
    || (((length_bits cmd == 0) || leb (2 ^ 31) (length_bits cmd)) || leb cmd.used cmd.rpos)

-- writeLen, behind its test.
abbrev pub write_len : Buffer → ℕ
write_len cmd = min per_iobuf_size (length_bits cmd)

abbrev pub signed64 : ℕ → ℤ
signed64 n = if ltb n (2 ^ 63) then pos n else negsuc (2 ^ 64 - n - 1)

-- The buffer behind the two calls for more than PER_IOBUF_SIZE bytes; resizeBuff may keep it.
abbrev shrunk : Realloc → (len : ℕ) → Buffer → Buffer
shrunk r len cmd =
    let b = (srange_buff cmd len).buffer in
    elim (resize_buff r b (signed64 (sub64 per_iobuf_size b.max))) [ none ↦ b | some w ↦ w.buffer ]

abbrev pub cleared : Buffer → Buffer
cleared cmd = record cmd { buf = write_at 0 (zeros cmd.max) cmd.buf; used = 0; rpos = 0; wpos = 0 }

-- The bytes that send takes of a buffer.
abbrev pub taken : Buffer → (n : ℕ) → List ℕ
taken cmd n = take n (drop cmd.rpos cmd.buf)

abbrev pub with_buffer : BufferArray → Buffer → BufferArray
with_buffer a cmd = record a { buff = set_slot a.buff a.rpos (held cmd) }

abbrev pub is_over : BufferArray → Bool
is_over a = (a.used == 0) || (leb a.wpos a.rpos || leb a.used a.rpos)

-- The tests in front of send, and the buffer at the place, of which send reads `write_len` bytes.
abbrev pub next_buffer : BufferArray → (out : List ℕ) → (Buffer → WriteRun) → WriteRun
next_buffer a out f =
    if is_over a
    then wrote s_ok a out
    else if ltb a.rpos a.size
    then elim (a.buff a.rpos) [
      | null ↦ fault
      | stale ↦ fault
      | held cmd ↦
          if is_sent cmd
          then wrote s_ok a out
          else if leb (cmd.rpos + write_len cmd) (length cmd.buf)
          then f cmd
          else fault
    ]
    else fault

-- Behind a send that took `n` bytes; `next` is the test of the loop.
abbrev pub after_send :
    Realloc
    → (n : ℕ) (out : List ℕ) → BufferArray
    → (next : BufferArray → WriteRun) → Buffer
    → WriteRun
after_send r n out a next cmd =
    if n == 0
    then wrote s_err a out
    else if ltb n (write_len cmd)
    then wrote s_ok (with_buffer a (record cmd { rpos = (cmd.rpos + n) % 2 ^ 64 }))
        (out ++ taken cmd n)
    else if leb n per_iobuf_size
    then next (record (with_buffer a (cleared cmd)) { rpos = a.rpos + 1 })
    else next (with_buffer a (shrunk r n cmd))

-- The condition of the loop.
abbrev pub go_on :
    (total : ℕ) (out : List ℕ) (next : BufferArray → WriteRun) → BufferArray → WriteRun
go_on total out next a =
    if leb (total + per_min_size) per_iobuf_size then next a else wrote s_ok a out

-- The loop; `total` is totalLen.
unfoldable pub write_loop :
    Realloc → (answers : List Send) (total : ℕ) (out : List ℕ) → BufferArray → WriteRun
write_loop r [] total out a = next_buffer a out (λ cmd. unanswered)
write_loop r (again ∷ answers) total out a = next_buffer a out (λ cmd. wrote s_ok a out)
write_loop r (error ∷ answers) total out a = next_buffer a out (λ cmd. wrote s_err a out)
write_loop r (sent k ∷ answers) total out a = next_buffer a out (λ cmd.
    let n = min k (write_len cmd) in
    let next = λ (a' : BufferArray). write_loop r answers (total + n) (out ++ taken cmd n) a' in
    after_send r n out a (go_on (total + n) (out ++ taken cmd n) next) cmd)

unfoldable pub base_write : Realloc → (answers : List Send) → BufferArray → WriteRun
unfolding write_loop
base_write r answers middle = write_loop r answers 0 [] middle
