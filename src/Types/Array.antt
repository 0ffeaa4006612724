-- ===== src/Types/Array.antt =====
-- The arrays of buffers of src/types.c. `buff i` is the pointer at place `i` of the block, which has
-- room for `size` pointers, while `max` counts what the code takes it to have. A pointer that no
-- write has set, or one of its bytes only, is `stale`: its use is a fault, and so is an access
-- outside of the block. `stray` sums up the bytes that addBuff wrote outside of a buffer's block.
-- Counts of pointers stay far below 2 ^ 64, and do not wrap around here where they grow.
pub mod Transfer
pub mod Append
pub mod Move
pub mod Empties
pub mod Faults
mod Tests
use redis_pool.Base.{
  ℕ, zero, suc, ◌+◌, ◌-◌, ◌*◌, ◌/◌, ◌%◌, ◌^◌, Bool, true, false, not, ◌&&◌, ◌||◌, Option, none,
  some, List, ltb, leb, ◌==◌, if◌then◌else◌,
}
use redis_pool.Base.Int.{ℤ, pos, negsuc}
use redis_pool.Types.Memory.{Realloc, failed, in_place, moved}
use redis_pool.Types.Buffer.{Buffer, sub64, new_buff, add_buff}

-- The status codes of base.h.
pub data Status : Type 0 where
  s_err s_ok s_nt : Status

pub data Slot : Type 0 where
  null stale : Slot
  held : Buffer → Slot

pub record BufferArray : Type 0 where
  pub buff : ℕ → Slot
  pub size : ℕ
  pub rpos : ℕ
  pub wpos : ℕ
  pub max : ℕ
  pub used : ℕ
  pub pendding : Bool
  pub stray : ℕ

-- base.h
abbrev pub per_buf_array_size : ℕ
per_buf_array_size = 60

pub data ArrayRun : Type 0 where
  done : Status → BufferArray → ArrayRun
  fault : ArrayRun

abbrev pub set_slot : (ℕ → Slot) → ℕ → Slot → ℕ → Slot
set_slot f i s j = if j == i then s else f j

-- memset of `bytes` zero bytes from place `i` on: the last pointer may be written in part.
abbrev pub clear_slots : (ℕ → Slot) → (i bytes : ℕ) → ℕ → Slot
clear_slots f i bytes j =
    if leb i j && ltb j (i + bytes / 8)
    then null
    else if (j == i + bytes / 8) && not (bytes % 8 == 0)
    then stale
    else f j

-- The two arguments say whether each malloc succeeds. memset clears `max` bytes, not pointers.
unfoldable pub new_buff_arr : (array_ok block_ok : Bool) → Option BufferArray
new_buff_arr false block_ok = none
new_buff_arr true false = none
new_buff_arr true true = some (record {
  buff = clear_slots (λ _. stale) 0 per_buf_array_size;
  size = per_buf_array_size;
  rpos = 0;
  wpos = 0;
  max = per_buf_array_size;
  used = 0;
  pendding = false;
  stray = 0;
})

-- A pointer that the code follows or frees.
abbrev pub is_usable : BufferArray → ℕ → Bool
is_usable a i = ltb i a.size && (elim (a.buff i) [ stale ↦ false | _ ↦ true ])

-- The loop that frees the last buffers, of which `left` are left.
pub can_free : (left : ℕ) → BufferArray → Bool
can_free zero a = true
can_free (suc left) a = is_usable a (a.max - suc left) && can_free left a

-- realloc is asked for `bytes` bytes.
abbrev pub resized_array : Realloc → (bytes : ℕ) → BufferArray → ArrayRun
resized_array failed bytes a = done s_err a
resized_array (in_place g) bytes a = done s_ok (record a {
  buff = λ j. if ltb j (bytes / 8) && ltb j a.size then a.buff j else stale;
  size = bytes / 8;
  max = bytes;
})
resized_array (moved g) bytes a = done s_ok (record a {
  buff = λ j. if ltb j (bytes / 8) && ltb j a.size then a.buff j else stale;
  size = bytes / 8;
  max = bytes;
})

abbrev pub is_failed : Realloc → Bool
is_failed failed = true
is_failed (in_place g) = false
is_failed (moved g) = false

abbrev pub is_moved : Realloc → Bool
is_moved failed = false
is_moved (in_place g) = false
is_moved (moved g) = true

-- The last `n` of the pointers lead to freed buffers.
abbrev pub with_freed : (n : ℕ) → BufferArray → BufferArray
with_freed n a = record a {
  buff = λ j. if leb (a.max - n) j && ltb j a.max then stale else a.buff j;
}

-- `s_err` stands for the result NULL. realloc is asked for as many bytes as there are pointers to be,
-- and the memset of the new ones begins behind `max` pointers of the old block.
unfoldable pub resize_array_buff : Realloc → ℤ → BufferArray → ArrayRun
unfolding can_free
resize_array_buff r (pos n) a =
    if n == 0
    then done s_ok a
    else if is_failed r
    then done s_err a
    else if is_moved r || ltb (a.max + n) (8 * a.max + n)
    then fault
    else resized_array r (a.max + n) a
resize_array_buff r (negsuc n) a =
    if can_free (suc n) a
    then resized_array r (sub64 a.max (suc n)) (with_freed (suc n) a)
    else fault

-- The loop that frees every buffer: `wpos` counts down.
pub free_all : (wpos : ℕ) → BufferArray → ArrayRun
free_all zero a = done s_ok a
free_all (suc i) a =
    let rest = free_all i (record a { wpos = i; buff = set_slot a.buff i null }) in
    if is_usable a i then rest else fault

-- Behind the test for all: memmove takes `wpos` times the size of a struct buffer, 40 bytes.
abbrev pub keep_from : (current : ℕ) → BufferArray → ArrayRun
keep_from current a =
    let kept = a.wpos - current in
    if leb (5 * kept + current) a.size && leb (8 * kept + a.max) (8 * a.size)
    then done s_ok (record a {
      rpos = 0;
      wpos = kept;
      used = sub64 a.used current;
      buff =
          clear_slots (λ j. if ltb j (5 * kept) then a.buff (j + current) else a.buff j) kept a.max;
    })
    else fault

abbrev pub emptied : ArrayRun → ArrayRun
emptied (done s a) = done s (record a { wpos = 0; used = 0 })
emptied fault = fault

abbrev pub srange_from : (current : ℕ) → BufferArray → ArrayRun
srange_from current a =
    if leb a.wpos current
    then emptied (
        if leb a.wpos a.max
        then free_all a.wpos (record a { rpos = 0 })
        else done s_ok (record a { rpos = 0 }))
    else keep_from current a

-- `tmpCurrentPos < -1` compares with the largest size_t, so it holds of every other size.
unfoldable pub srange_array_buff : (current : ℕ) → BufferArray → ArrayRun
unfolding free_all
srange_array_buff current a =
    srange_from (if current == 0 then a.rpos else if current == 2 ^ 64 - 1 then current else a.wpos)
      a

unfoldable pub is_array_buff_eof : BufferArray → Bool
is_array_buff_eof a = leb a.wpos a.rpos

unfoldable pub is_array_buff_enough : BufferArray → (size : ℕ) → Bool
is_array_buff_enough a size = leb size (sub64 a.max a.wpos)

-- The answers of the allocator to one call of addBuffer.
pub record Alloc : Type 0 where
  pub buffer_ok : Bool
  pub block_ok : Bool
  pub array : Realloc
  pub block : Realloc

-- The buffer at a place: a new one if the pointer is NULL.
abbrev pub buffer_of : Alloc → Slot → Option Buffer
buffer_of os null = new_buff os.buffer_ok os.block_ok
buffer_of os stale = none
buffer_of os (held b) = some b

abbrev pub append_to : Alloc → (i : ℕ) (add : List ℕ) → Buffer → BufferArray → ArrayRun
append_to os i add b a = elim (add_buff os.block b add) [
  | none ↦ done s_err (record a { buff = set_slot a.buff i (held b) })
  | some w ↦
      done s_ok (record a { buff = set_slot a.buff i (held w.buffer); stray = a.stray + w.stray })
]

-- From the test of the pointer on.
unfoldable pub add_at : Alloc → (i : ℕ) (add : List ℕ) → BufferArray → ArrayRun
add_at os i add a =
    if is_usable a i
    then elim (buffer_of os (a.buff i)) [ none ↦ done s_err a | some b ↦ append_to os i add b a ]
    else fault

abbrev pub add_in_order : Alloc → (alen : ℕ) (add : List ℕ) → BufferArray → ArrayRun
add_in_order os alen add a =
    if leb a.wpos alen
    then add_at os a.wpos add (record a { wpos = a.wpos + 1; used = a.used + 1 })
    else add_at os alen add a

abbrev pub if_ok : ArrayRun → (BufferArray → ArrayRun) → ArrayRun
if_ok (done s_ok a) f = f a
if_ok (done s_err a) f = done s_err a
if_ok (done s_nt a) f = done s_nt a
if_ok fault f = fault

unfoldable pub add_buffer : Alloc → (alen : ℕ) (add : List ℕ) → BufferArray → ArrayRun
add_buffer os alen add a =
    if leb a.max alen
    then if_ok (resize_array_buff os.array (pos per_buf_array_size) a) (add_in_order os alen add)
    else add_in_order os alen add a

-- `used` is reduced by the `wpos` that has just been reset.
unfoldable pub clear_array_buff : BufferArray → ArrayRun
clear_array_buff a =
    if leb a.max (8 * a.size)
    then done s_ok (record a { buff = clear_slots a.buff 0 a.max; wpos = 0; rpos = 0 })
    else fault
