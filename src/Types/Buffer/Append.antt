-- ===== src/Types/Buffer/Append.antt =====
-- addBuff of src/types.c: what it appends, and what it writes outside of the block.
use redis_pool.Base.{
  ℕ, ◌+◌, ◌-◌, ◌%◌, ◌^◌, ◌≤◌, ◌<◌, ◌≡◌, refl, ap, ◌∙◌, some, List, ◌++◌, arith, lt→ltb, length,
}
use native.Mathlib.Decide.{dec_lt}
use redis_pool.Base.Int.{pos}
use redis_pool.Types.Memory.{
  Realloc, in_place, realloc_block, zeros, write_at, length-realloc_block, length-write_at,
  take-write_at, take-write_at_end, take-realloc_block,
}
use redis_pool.Types.Buffer.{
  per_iobuf_size, Buffer, Written, resize_buff, realloc_buff, append_bytes, growth, append_extra,
  counted, add_buff,
}
use redis_pool.Types.Buffer.Content.{
  IsBuffer, IsSmall, content, missing, extra_bits-missing, add_buff-room,
}

-- The buffer that resizeBuff gives where realloc extends the block in its place.
abbrev pub grown : (g : ℕ → ℕ) → Buffer → ℕ → Buffer
grown g b n = record b {
  buf = write_at b.max (zeros n) (realloc_block g (b.max + n) b.buf);
  max = b.max + n;
}

-- The number of bytes by which addBuff extends the block too little.
abbrev pub shortage : ℕ → ℕ
shortage extra = extra - growth extra

module _ (g : ℕ → ℕ) (b : Buffer) (n : ℕ) (v : IsBuffer b) (bound : b.max + n < 2 ^ 64) where
  pub length-grown : length (grown g b n).buf ≡ b.max + n
  length-grown = omega (
    arith,
    length-write_at b.max (zeros n) (realloc_block g (b.max + n) b.buf),
    length-realloc_block g (b.max + n) b.buf,
  )

  pub content-grown : content (grown g b n) ≡ content b
  unfolding content
  content-grown =
      let inside = v.block in
      take-write_at b.wpos b.max (zeros n) (realloc_block g (b.max + n) b.buf) v.write_le
      ∙ take-realloc_block b.wpos (b.max + n) g b.buf (omega (arith, v.write_le))
          (omega (arith, v.write_le))

  pub resize_buff-grown :
      0 < n → resize_buff (in_place g) b (pos n) ≡ some (record { buffer = grown g b n; stray = 0 })
  unfolding resize_buff realloc_buff
  resize_buff-grown h = ground (arith, length-realloc_block g (b.max + n) b.buf)

pub content-append_bytes :
    (b : Buffer) (add : List ℕ) (stray : ℕ)
    → b.wpos + length add ≤ length b.buf
    → b.wpos + length add < 2 ^ 64
    → content (append_bytes b add stray).buffer ≡ content b ++ add
unfolding content append_bytes
content-append_bytes b add stray h k =
    let n = (b.wpos + length add) % 2 ^ 64 in
    take-write_at_end n b.wpos add b.buf (omega arith) (omega arith)

growth-pos : (e : ℕ) → 0 < growth e
growth-pos e = ground arith

growth-le : (e : ℕ) → growth e ≤ e + (per_iobuf_size + 1)
growth-le e = ground arith

module _ (b : Buffer) (add : List ℕ) (v : IsBuffer b) (small : IsSmall b (length add))
    (full : 0 < missing b (length add)) where
  abbrev added : ℕ
  added = growth (missing b (length add))

  append_extra-some :
      (r : Realloc) (e : ℕ) (w : Written)
      → 0 < e
      → e < 2 ^ 31
      → resize_buff r b (pos (growth e)) ≡ some w
      → append_extra r b add e ≡ some (append_bytes (counted w.buffer (length add)) add w.stray)
  unfolding append_extra
  append_extra-some r e w h k got = rw (lt→ltb 0 e h, lt→ltb e (2 ^ 31) k, got)

  add_buff-resize_buff :
      (r : Realloc) (w : Written)
      → resize_buff r b (pos added) ≡ some w
      → add_buff r b add ≡ some (append_bytes (counted w.buffer (length add)) add w.stray)
  unfolding add_buff
  add_buff-resize_buff r w got =
      ap (append_extra r b add) (extra_bits-missing b add v small full)
      ∙ append_extra-some r (missing b (length add)) w full (ground arith) got

pub append_bytes-IsBuffer :
    (b : Buffer) (add : List ℕ) (stray : ℕ)
    → IsBuffer b
    → b.wpos + length add ≤ b.max
    → b.used + length add < 2 ^ 64
    → IsBuffer (append_bytes b add stray).buffer
unfolding append_bytes
append_bytes-IsBuffer b add stray v h k = ground (arith, length-write_at b.wpos add b.buf)

counted-grown-IsBuffer :
    (g : ℕ → ℕ) (b : Buffer) (n len : ℕ)
    → IsBuffer b
    → b.max + n < 2 ^ 63
    → b.used + len < 2 ^ 64
    → IsBuffer (counted (grown g b n) len)
counted-grown-IsBuffer g b n len v h k = ground (
  arith,
  length-write_at b.max (zeros n) (realloc_block g (b.max + n) b.buf),
  length-realloc_block g (b.max + n) b.buf,
)

pub record Appended (b : Buffer) (add : List ℕ) (w : Written) : Type 0 where
  pub bytes : content w.buffer ≡ content b ++ add
  pub in_bounds : w.stray ≡ 0
  pub valid : IsBuffer w.buffer

pub stray-append_bytes :
    (b : Buffer) (add : List ℕ) (stray : ℕ)
    → (append_bytes b add stray).stray ≡ stray + (length add - (length b.buf - b.wpos))
unfolding append_bytes
stray-append_bytes b add stray = refl

abbrev extended : (g : ℕ → ℕ) → Buffer → List ℕ → ℕ → Buffer
extended g b add n = counted (grown g b n) (length add)

module _ (g : ℕ → ℕ) (b : Buffer) (add : List ℕ) (n : ℕ) (v : IsBuffer b)
    (small : IsSmall b (length add)) (bound : n ≤ 2 ^ 31 + per_iobuf_size + 1) where
  extended-IsBuffer : IsBuffer (extended g b add n)
  extended-IsBuffer = counted-grown-IsBuffer g b n (length add) v (omega arith) (omega arith)

  content-extended : content (extended g b add n) ≡ content b
  unfolding content
  content-extended = unfold content in content-grown g b n v (omega arith)

  stray-extended : (append_bytes (extended g b add n) add 0).stray ≡ missing b (length add) - n
  stray-extended =
      let size = length-grown g b n v (omega arith) in
      omega (arith, stray-append_bytes (extended g b add n) add 0, size, v.write_le)

  Appended-extended :
      missing b (length add) ≤ n → Appended b add (append_bytes (extended g b add n) add 0)
  Appended-extended h =
      let size = length-grown g b n v (omega arith) in
      record {
        bytes =
            content-append_bytes (extended g b add n) add 0 (omega (arith, size)) (omega arith)
            ∙ ap (λ xs. xs ++ add) content-extended;
        in_bounds = omega (arith, stray-extended);
        valid =
            append_bytes-IsBuffer (extended g b add n) add 0 extended-IsBuffer (omega arith)
              (omega arith);
      }

module _ (g : ℕ → ℕ) (b : Buffer) (add : List ℕ) (v : IsBuffer b)
    (small : IsSmall b (length add)) where
  Appended-room :
      missing b (length add) ≡ 0
      → (w : Written) × (add_buff (in_place g) b add ≡ some w) × Appended b add w
  Appended-room h = (
    append_bytes b add 0,
    add_buff-room b add v small (in_place g) h,
    record {
      bytes = content-append_bytes b add 0 (omega (arith, v.block)) (omega arith);
      in_bounds = omega (arith, stray-append_bytes b add 0, v.block);
      valid = append_bytes-IsBuffer b add 0 v (omega arith) (omega arith);
    },
  )

  add_buff-extended :
      0 < missing b (length add)
      → add_buff (in_place g) b add
        ≡ some (append_bytes (extended g b add (growth (missing b (length add)))) add 0)
  add_buff-extended full =
      let n = growth (missing b (length add)) in
      add_buff-resize_buff b add v small full (in_place g)
        (record { buffer = grown g b n; stray = 0 })
        (resize_buff-grown g b n v (omega (arith, growth-le (missing b (length add))))
          (growth-pos (missing b (length add))))

  -- For a well-formed buffer whose sizes and the new bytes stay below 2 ^ 31: where realloc extends
  -- the block in its place, and the extension is enough for the bytes that do not fit, addBuff
  -- succeeds and appends exactly the new bytes, writes nothing outside of the block, and leaves the
  -- buffer well formed.
  pub add_buff_appends :
      shortage (missing b (length add)) ≡ 0
      → (w : Written) × (add_buff (in_place g) b add ≡ some w) × Appended b add w
  add_buff_appends h =
      let e = missing b (length add) in
      elim (dec_lt 0 e) [
        | yes full ↦ (
          append_bytes (extended g b add (growth e)) add 0,
          add_buff-extended full,
          Appended-extended g b add (growth e) v small (omega (arith, growth-le e)) (omega arith),
        )
        | no room ↦ Appended-room (omega arith)
      ]

  -- For such a buffer, where realloc extends the block in its place and more than 16385 bytes do not
  -- fit, addBuff succeeds, and writes as many bytes behind the end of the block as the bytes that do
  -- not fit leave modulo 16385.
  pub add_buff_overruns :
      per_iobuf_size + 1 < missing b (length add)
      → (w : Written) × (add_buff (in_place g) b add ≡ some w)
        × (w.stray ≡ missing b (length add) % (per_iobuf_size + 1))
  add_buff_overruns h =
      let e = missing b (length add) in
      (
        append_bytes (extended g b add (growth e)) add 0,
        add_buff-extended (omega arith),
        stray-extended g b add (growth e) v small (omega (arith, growth-le e)) ∙ ground arith,
      )
