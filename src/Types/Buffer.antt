-- ===== src/Types/Buffer.antt =====
-- The byte buffers of src/types.c. `buf` holds the bytes of the block that buff->buf points to, so
-- its length is the size of the allocation. Sizes are size_t: a difference wraps around. A function
-- that writes returns the buffer with the number of bytes that it wrote outside of every live
-- block, 0 if all writes are in bounds. Pointers to buffers are never null here, nor is buff->buf:
-- newBuff gives no buffer without a block, and resizeBuff keeps the old one when realloc fails.
pub mod Content
pub mod Append
use redis_pool.Base.{
  ℕ, ◌+◌, ◌-◌, ◌*◌, ◌/◌, ◌%◌, ◌^◌, Bool, ◌&&◌, true, false, Option, none, some, List, ltb, leb,
  ◌==◌, if◌then◌else◌, length, take, drop,
}
use redis_pool.Base.Int.{ℤ, pos, negsuc}
use redis_pool.Types.Memory.{
  Realloc, failed, in_place, moved, realloc_block, zeros, write_at, stray_bytes,
}

-- base.h
abbrev pub per_iobuf_size : ℕ
per_iobuf_size = 1024 * 16

-- a - b in size_t
abbrev pub sub64 : ℕ → ℕ → ℕ
sub64 a b = (a + 2 ^ 64 - b) % 2 ^ 64

pub record Buffer : Type 0 where
  pub buf : List ℕ
  pub max : ℕ
  pub rpos : ℕ
  pub wpos : ℕ
  pub used : ℕ

pub record Written : Type 0 where
  pub buffer : Buffer
  pub stray : ℕ

-- The two arguments say whether each malloc succeeds.
unfoldable pub new_buff : (buffer_ok block_ok : Bool) → Option Buffer
new_buff false block_ok = none
new_buff true false = none
new_buff true true = some (record {
  buf = zeros (per_iobuf_size + 1);
  max = per_iobuf_size + 1;
  rpos = 0;
  wpos = 0;
  used = 0;
})

-- max + addSize in size_t
abbrev pub resized : ℕ → ℤ → ℕ
resized max (pos n) = (max + n) % 2 ^ 64
resized max (negsuc n) = sub64 max (n + 1)

-- The memset of `n` bytes behind the old size goes through the old pointer: into the block if
-- realloc left it in its place, and to freed memory if it moved it.
pub realloc_buff : Realloc → Buffer → ℤ → Option Written
realloc_buff failed b n = none
realloc_buff (in_place g) b (pos n) =
    let block = realloc_block g (resized b.max (pos n)) b.buf in
    some (record {
      buffer = record b { buf = write_at b.max (zeros n) block; max = resized b.max (pos n) };
      stray = stray_bytes b.max n block;
    })
realloc_buff (in_place g) b (negsuc n) =
    let size = resized b.max (negsuc n) in
    some (record { buffer = record b { buf = realloc_block g size b.buf; max = size }; stray = 0 })
realloc_buff (moved g) b (pos n) =
    let size = resized b.max (pos n) in
    some (record { buffer = record b { buf = realloc_block g size b.buf; max = size }; stray = n })
realloc_buff (moved g) b (negsuc n) =
    let size = resized b.max (negsuc n) in
    some (record { buffer = record b { buf = realloc_block g size b.buf; max = size }; stray = 0 })

abbrev is_zero : ℤ → Bool
is_zero (pos n) = n == 0
is_zero (negsuc n) = false

unfoldable pub resize_buff : Realloc → Buffer → ℤ → Option Written
resize_buff r b n =
    if is_zero n then some (record { buffer = b; stray = 0 }) else realloc_buff r b n

-- `rpos` is reset before the tests on `current`, so a `current` of 0 stays 0. The test for a
-- negative size_t never holds.
unfoldable pub srange_buff : Buffer → (current : ℕ) → Written
srange_buff b current =
    if leb b.wpos current
    then record {
      buffer = record b { rpos = 0; wpos = 0; used = 0; buf = write_at 0 (zeros b.max) b.buf };
      stray = stray_bytes 0 b.max b.buf;
    }
    else (let kept = b.wpos - current in
        let shifted = write_at 0 (take kept (drop current b.buf)) b.buf in
        record {
          buffer = record b {
            rpos = 0;
            wpos = kept;
            used = sub64 b.used current;
            buf = write_at kept (zeros b.max) shifted;
          };
          stray = stray_bytes kept b.max shifted;
        })

unfoldable pub is_buff_eof : Buffer → Bool
is_buff_eof b = leb b.wpos b.rpos

pub is_buff_enough : Buffer → (size : ℕ) → Bool
is_buff_enough b size = leb size (sub64 b.max b.wpos)

-- `extra` as the 32 bits of the int32_t that holds it.
abbrev pub extra_bits : Buffer → (len : ℕ) → ℕ
extra_bits b len = sub64 len (sub64 b.max b.wpos) % 2 ^ 32

abbrev pub growth : (extra : ℕ) → ℕ
growth extra =
    let multi = extra / (per_iobuf_size + 1) in
    (per_iobuf_size + 1) * (if multi == 0 then 1 else multi)

-- The memcpy behind the tests, with the bytes that went astray before.
unfoldable pub append_bytes : Buffer → (add : List ℕ) (stray : ℕ) → Written
append_bytes b add stray = record {
  buffer = record b {
    buf = write_at b.wpos add b.buf;
    wpos = (b.wpos + length add) % 2 ^ 64;
    used = (b.used + length add) % 2 ^ 64;
  };
  stray = stray + stray_bytes b.wpos (length add) b.buf;
}

abbrev pub counted : Buffer → (len : ℕ) → Buffer
counted b len = record b { used = (b.used + len) % 2 ^ 64 }

-- `none` is S_ERR. Where the buffer is extended `len` is added to `used` twice.
pub append_extra : Realloc → Buffer → (add : List ℕ) (extra : ℕ) → Option Written
append_extra r b add extra =
    if ltb 0 extra && ltb extra (2 ^ 31)
    then elim (resize_buff r b (pos (growth extra))) [
      | none ↦ none
      | some w ↦ some (append_bytes (counted w.buffer (length add)) add w.stray)
    ]
    else some (append_bytes b add 0)

unfoldable pub add_buff : Realloc → Buffer → (add : List ℕ) → Option Written
unfolding append_extra
add_buff r b add = append_extra r b add (extra_bits b (length add))
