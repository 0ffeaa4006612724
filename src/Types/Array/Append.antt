-- ===== src/Types/Array/Append.antt =====
-- addBuffer of src/types.c at the place of the command that is being put together.
use redis_pool.Base.{
  ℕ, suc, ◌+◌, ◌%◌, ◌^◌, ◌≤◌, ◌<◌, ◌≡◌, ◌≢◌, refl, ap, ◌∙◌, true, false, some, List, [], ◌++◌,
  arith, leb, lt→ltb, length, length-take,
}
use redis_pool.Types.Memory.{Realloc, zeros, length-zeros}
use redis_pool.Types.Buffer.{Buffer, per_iobuf_size, new_buff, append_bytes, add_buff}
use redis_pool.Types.Buffer.Content.{IsBuffer, content, add_buff-room}
use redis_pool.Types.Buffer.Append.{stray-append_bytes, content-append_bytes, append_bytes-IsBuffer}
use redis_pool.Types.Array.{
  s_ok, Slot, null, held, BufferArray, done, Alloc, set_slot, append_to, add_at, add_buffer,
}

-- The room of a buffer that newBuff made.
abbrev pub capacity : ℕ
capacity = per_iobuf_size + 1

-- A buffer that has not been extended, with the text in it.
pub record HoldsText (b : Buffer) (text : List ℕ) : Type 0 where
  pub valid : IsBuffer b
  pub room : b.max ≡ capacity
  pub once : b.used ≡ b.wpos
  pub text_is : content b ≡ text

HoldsText-length : (b : Buffer) (text : List ℕ) → HoldsText b text → b.wpos ≡ length text
unfolding content
HoldsText-length b text h = omega (arith, ap length h.text_is, length-take b.wpos b.buf, h.valid)

module _ (r : Realloc) (b : Buffer) (text add : List ℕ) (h : HoldsText b text)
    (fits : length text + length add ≤ capacity) where
  add_buff-fits : add_buff r b add ≡ some (append_bytes b add 0)
  add_buff-fits =
      let n = HoldsText-length b text h in
      let v = h.valid in
      add_buff-room b add v
        (record {
          used_small = omega (arith, h.once, h.room, v.write_le);
          size_small = omega (arith, h.room);
          end_small = omega (arith, n);
        })
        r (omega (arith, n, h.room))

  HoldsText-append_bytes : HoldsText (append_bytes b add 0).buffer (text ++ add)
  unfolding append_bytes
  HoldsText-append_bytes =
      let n = HoldsText-length b text h in
      let v = h.valid in
      record {
        valid =
            append_bytes-IsBuffer b add 0 v (omega (arith, n, h.room)) (omega (arith, n, h.once));
        room = h.room;
        once = ap (λ x. (x + length add) % 2 ^ 64) h.once;
        text_is =
            content-append_bytes b add 0 (omega (arith, n, h.room, v.block)) (omega (arith, n))
            ∙ ap (λ t. t ++ add) h.text_is;
      }

  stray-fits : (append_bytes b add 0).stray ≡ 0
  stray-fits =
      let n = HoldsText-length b text h in
      let v = h.valid in omega (arith, stray-append_bytes b add 0, n, h.room, v.block)

-- Place `k` is the next one, with no buffer in it; or it is the last one that the code has begun, and
-- its buffer holds the text.
pub data Filling (a : BufferArray) (k : ℕ) (text : List ℕ) : Type 0 where
  fresh : a.wpos ≡ k → a.buff k ≡ null → text ≡ [] → Filling a k text
  begun : a.wpos ≡ suc k → (b : Buffer) → a.buff k ≡ held b → HoldsText b text → Filling a k text

pub record Added (k : ℕ) (text : List ℕ) (a a' : BufferArray) : Type 0 where
  pub filling : Filling a' k text
  pub max_kept : a'.max ≡ a.max
  pub size_kept : a'.size ≡ a.size
  pub others : (j : ℕ) → j ≢ k → a'.buff j ≡ a.buff j
  pub in_bounds : a'.stray ≡ a.stray

abbrev pub new_buffer : Buffer
new_buffer = record { buf = zeros capacity; max = capacity; rpos = 0; wpos = 0; used = 0 }

HoldsText-new : HoldsText new_buffer []
unfolding content
HoldsText-new = record {
  valid = record {
    block = length-zeros capacity;
    read_le = omega arith;
    write_le = omega arith;
    used_ge = omega arith;
    used_lt = omega arith;
    size = omega arith;
  };
  room = refl;
  once = refl;
  text_is = refl;
}

HoldsText-empty : (text : List ℕ) → text ≡ [] → HoldsText new_buffer text
HoldsText-empty text e = rw e HoldsText-new

set_slot-other : (f : ℕ → Slot) (k : ℕ) (s : Slot) (j : ℕ) → j ≢ k → set_slot f k s j ≡ f j
set_slot-other f k s j h = ground arith

set_slot-same : (f : ℕ → Slot) (k : ℕ) (s : Slot) → set_slot f k s k ≡ s
set_slot-same f k s = ground arith

module _ (os : Alloc) (a : BufferArray) (k : ℕ) (text add : List ℕ) (inside : k < a.size)
    (fits : length text + length add ≤ capacity) where
  -- The buffer at the place gets the bytes.
  abbrev appended : Buffer → BufferArray
  appended b =
      let w = append_bytes b add 0 in
      record a { buff = set_slot a.buff k (held w.buffer); stray = a.stray + w.stray }

  append_to-fits : (b : Buffer) → HoldsText b text → append_to os k add b a ≡ done s_ok (appended b)
  append_to-fits b h = rw (append_to, add_buff-fits os.block b text add h fits)

  appended-Added :
      (b : Buffer) → HoldsText b text → a.wpos ≡ suc k → Added k (text ++ add) a (appended b)
  appended-Added b h e = record {
    filling =
        begun e (append_bytes b add 0).buffer
          (set_slot-same a.buff k (held (append_bytes b add 0).buffer))
          (HoldsText-append_bytes os.block b text add h fits);
    max_kept = refl;
    size_kept = refl;
    others = set_slot-other a.buff k (held (append_bytes b add 0).buffer);
    in_bounds = omega (arith, stray-fits os.block b text add h fits);
  }

  -- The bytes go to the buffer at the place, where there is one, or to a new one.
  add_at-held :
      (b : Buffer)
      → a.buff k ≡ held b
      → HoldsText b text
      → add_at os k add a ≡ done s_ok (appended b)
  unfolding add_at
  add_at-held b e h = rw (e, lt→ltb k a.size inside, append_to-fits b h)

  add_at-null :
      os.buffer_ok ≡ true
      → os.block_ok ≡ true
      → a.buff k ≡ null
      → HoldsText new_buffer text
      → add_at os k add a ≡ done s_ok (appended new_buffer)
  unfolding add_at new_buff
  add_at-null p q e h = rw (e, lt→ltb k a.size inside, p, q, append_to-fits new_buffer h)

module _ (os : Alloc) (buffer_ok : os.buffer_ok ≡ true) (block_ok : os.block_ok ≡ true) where
  -- Where malloc gives memory, for a place `k` in the block of the array that is the next one and empty,
  -- or the last one begun and holds `text` in a buffer that has not been extended: addBuffer succeeds
  -- and appends exactly the given bytes there, if both have at most 16385 bytes together. It changes
  -- the pointer of no other place and writes nothing outside of the buffer's block.
  pub add_buffer-Filling :
      (a : BufferArray) (k : ℕ) (text add : List ℕ)
      → Filling a k text
      → k < a.size
      → k < a.max
      → length text + length add ≤ capacity
      → (a' : BufferArray) × (add_buffer os k add a ≡ done s_ok a') × Added k (text ++ add) a a'
  unfolding add_buffer
  add_buffer-Filling a k text add (fresh e n t) inside below fits =
      let h = HoldsText-empty text t in
      let next : BufferArray = record a { wpos = k + 1; used = a.used + 1 } in
      let here : leb a.wpos k ≡ true = ground arith in
      let room : leb a.max k ≡ false = ground arith in
      let added = appended-Added os next k text add inside fits new_buffer h (omega arith) in
      (
        appended os next k text add inside fits new_buffer,
        rw (room, here, e) (add_at-null os next k text add inside fits buffer_ok block_ok n h),
        record {
          filling = added.filling;
          max_kept = refl;
          size_kept = refl;
          others = added.others;
          in_bounds = added.in_bounds;
        },
      )
  add_buffer-Filling a k text add (begun e b n h) inside below fits =
      let there : leb a.wpos k ≡ false = ground arith in
      let room : leb a.max k ≡ false = ground arith in
      (
        appended os a k text add inside fits b,
        rw (room, there) (add_at-held os a k text add inside fits b n h),
        appended-Added os a k text add inside fits b h e,
      )
