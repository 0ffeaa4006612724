-- ===== src/Client/Write/Forgets.antt =====
-- baseWrite of src/net/client.c at a buffer with more bytes than one send takes.
use Prim.Native.Nat.{min}
use redis_pool.Base.{
  ℕ, ◌+◌, ◌-◌, ◌^◌, ◌≤◌, ◌<◌, ◌≡◌, refl, true, false, List, [], ◌∷◌, arith, ltb, leb, length, take,
  drop,
}
use redis_pool.Types.Memory.{Realloc, take-take}
use redis_pool.Types.Buffer.{Buffer, per_iobuf_size}
use redis_pool.Types.Buffer.Content.{IsBuffer}
use redis_pool.Types.Array.{s_ok, held, BufferArray}
use redis_pool.Client.Write.{
  Send, sent, WriteRun, wrote, is_sent, write_len, length_bits, taken, with_buffer, cleared,
  is_over, next_buffer, write_loop, base_write,
}
use redis_pool.Client.Write.Pending.{unsent}

-- The queue has a buffer at its place.
pub record HasNext (a : BufferArray) (b : Buffer) : Type 0 where
  pub slot : a.buff a.rpos ≡ held b
  pub left : a.rpos < a.wpos
  pub inside : a.wpos ≤ a.size
  pub counted : a.wpos ≤ a.used
  pub valid : IsBuffer b

module _ (a : BufferArray) (b : Buffer) (h : HasNext a b) (large : b.rpos + per_iobuf_size < b.wpos)
    (bound : b.wpos < 2 ^ 31 + b.rpos) where
  length_bits-large : length_bits b ≡ b.wpos - b.rpos
  length_bits-large = omega (arith, h.valid.size, h.valid.write_le)

  write_len-large : write_len b ≡ per_iobuf_size
  write_len-large = omega (arith, length_bits-large)

  next_buffer-large : (out : List ℕ) (f : Buffer → WriteRun) → next_buffer a out f ≡ f b
  next_buffer-large out f =
      let open_queue : is_over a ≡ false = ground (arith, h.counted, h.left) in
      let inside : ltb a.rpos a.size ≡ true = ground (arith, h.inside, h.left) in
      let unread : is_sent b ≡ false = ground (arith, length_bits-large, h.valid.used_ge) in
      let block : leb (b.rpos + write_len b) (length b.buf) ≡ true =
        ground (arith, write_len-large, h.valid.block, h.valid.write_le) in
      rw (open_queue, inside, h.slot, unread, block) refl

  -- For a queue whose next buffer is well formed and has more than 16384 bytes to send, less than 2 ^ 31,
  -- where send takes as many bytes as it is given: baseWrite returns S_OK when it has sent the first
  -- 16384 of them, goes to the next buffer, and leaves nothing to send in this one, so the bytes behind
  -- the first 16384 are never sent.
  pub base_write-forgets :
      (r : Realloc) (k : ℕ) (answers : List Send)
      → per_iobuf_size ≤ k
      → (a' : BufferArray) × (b' : Buffer) × (base_write r (sent k ∷ answers) a
          ≡ wrote s_ok a' (take per_iobuf_size (unsent b)))
        × (a'.rpos ≡ a.rpos + 1)
        × (a'.buff a.rpos ≡ held b')
        × (unsent b' ≡ [])
  unfolding base_write write_loop
  base_write-forgets r k answers h' =
      let all : min k (write_len b) ≡ per_iobuf_size = omega (arith, write_len-large) in
      let out : take per_iobuf_size (unsent b) ≡ taken b per_iobuf_size =
        take-take per_iobuf_size (b.wpos - b.rpos) (drop b.rpos b.buf) (omega arith) in
      (
        record (with_buffer a (cleared b)) { rpos = a.rpos + 1 },
        cleared b,
        rw (out, next_buffer-large [] _, all, write_len-large) refl,
        refl,
        ground arith,
        refl,
      )
