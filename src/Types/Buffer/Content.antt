-- ===== src/Types/Buffer/Content.antt =====
-- What the operations of src/types.c do to the bytes that a buffer holds.
use redis_pool.Base.{
  ℕ, ◌+◌, ◌-◌, ◌^◌, ◌≤◌, ◌<◌, ◌≡◌, sym, ◌∙◌, inl, inr, false, ◌&&◌, some, List, arith, ltb, leb,
  Bool-cases, length, take, drop, length-drop, length-take,
}
use redis_pool.Types.Memory.{
  Realloc, zeros, write_at, length-write_at, take-write_at, take-write_at_end, take-drop, drop-all,
}
use redis_pool.Types.Buffer.{Buffer, extra_bits, srange_buff, append_bytes, add_buff}

-- `max` is the size of the block, in which the bytes in use lie.
pub record IsBuffer (b : Buffer) : Type 0 where
  pub block : length b.buf ≡ b.max
  pub read_le : b.rpos ≤ b.wpos
  pub write_le : b.wpos ≤ b.max
  pub used_ge : b.wpos ≤ b.used
  pub used_lt : b.used < 2 ^ 64
  pub size : b.max < 2 ^ 63

-- The bytes written and not yet dropped.
unfoldable pub content : Buffer → List ℕ
content b = take b.wpos b.buf

take-kept :
    (b : Buffer) (c : ℕ) → IsBuffer b → length (take (b.wpos - c) (drop c b.buf)) ≡ b.wpos - c
take-kept b c v =
    let bounds = v.block in
    omega (arith, length-take (b.wpos - c) (drop c b.buf), length-drop c b.buf)

-- srangeBuff drops exactly the first `c` bytes of what the buffer holds, and all if there are no
-- more.
content-srange_buff :
    (b : Buffer) (c : ℕ) → IsBuffer b → content (srange_buff b c).buffer ≡ drop c (content b)
unfolding content srange_buff
content-srange_buff b c v = elim (Bool-cases (leb b.wpos c)) [
  | inl e ↦ rw e (sym (drop-all c (content b) (ground (arith, length-take b.wpos b.buf))))
  | inr e ↦
      let kept = b.wpos - c in
      let tail = take kept (drop c b.buf) in
      rw e (
        take-write_at kept kept (zeros b.max) (write_at 0 tail b.buf) (omega arith)
        ∙ take-write_at_end kept 0 tail b.buf (omega (arith, take-kept b c v)) (omega arith)
        ∙ take-drop kept c b.wpos b.buf (ground arith))
]

stray-srange_buff : (b : Buffer) (c : ℕ) → IsBuffer b → (srange_buff b c).stray ≡ b.wpos - c
unfolding srange_buff
stray-srange_buff b c v = ground (arith, length-write_at 0 (take (b.wpos - c) (drop c b.buf)) b.buf)

srange_buff-IsBuffer : (b : Buffer) (c : ℕ) → IsBuffer b → IsBuffer (srange_buff b c).buffer
unfolding srange_buff
srange_buff-IsBuffer b c v = ground (
  arith,
  length-write_at 0 (zeros b.max) b.buf,
  length-write_at 0 (take (b.wpos - c) (drop c b.buf)) b.buf,
  length-write_at (b.wpos - c) (zeros b.max) (write_at 0 (take (b.wpos - c) (drop c b.buf)) b.buf),
)

-- srangeBuff drops exactly the first `c` bytes that a well-formed buffer holds, and all of them if
-- there are no more; the buffer stays well formed. One byte behind the end of the block is written
-- for each byte that it keeps.
pub srange_buff_lem :
    (b : Buffer) (c : ℕ)
    → IsBuffer b
    → (content (srange_buff b c).buffer ≡ drop c (content b))
      × IsBuffer (srange_buff b c).buffer
      × ((srange_buff b c).stray ≡ b.wpos - c)
srange_buff_lem b c v =
    (content-srange_buff b c v, srange_buff-IsBuffer b c v, stray-srange_buff b c v)

-- The room that is missing for `n` more bytes.
abbrev pub missing : Buffer → ℕ → ℕ
missing b n = b.wpos + n - b.max

-- An append for which the arithmetic of addBuff does not leave its types.
pub record IsSmall (b : Buffer) (n : ℕ) : Type 0 where
  pub used_small : b.used < 2 ^ 63
  pub size_small : b.max < 2 ^ 31
  pub end_small : b.wpos + n < 2 ^ 31

module _ (b : Buffer) (add : List ℕ) (v : IsBuffer b) (small : IsSmall b (length add)) where
  pub extra_bits-missing :
      0 < missing b (length add) → extra_bits b (length add) ≡ missing b (length add)
  extra_bits-missing h = ground arith

  extra_bits-room :
      missing b (length add) ≡ 0
      → (ltb 0 (extra_bits b (length add)) && ltb (extra_bits b (length add)) (2 ^ 31)) ≡ false
  extra_bits-room h = ground arith

  -- With room for the bytes no realloc is made.
  pub add_buff-room :
      (r : Realloc) → missing b (length add) ≡ 0 → add_buff r b add ≡ some (append_bytes b add 0)
  unfolding add_buff
  add_buff-room r h = rw (extra_bits-room h)
