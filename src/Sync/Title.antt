-- ===== src/Sync/Title.antt =====
-- setProcessTitle of src/sync/process.c: psBuffer has the bytes from the start of the arguments on, as many as
-- psBufferSize; an empty buffer stands for NULL, and an empty title too.
use Prim.Native.Nat.{min}
use redis_pool.Base.{
  ℕ, ◌+◌, ◌-◌, ◌≤◌, ◌<◌, ◌≡◌, sym, ap, ◌∙◌, false, ◌||◌, List, [], ◌∷◌, ◌++◌, arith, ltb,
  if◌then◌else◌, length, take, length-append, length-take, Bool-cases, inl, inr,
}
use redis_pool.Types.Memory.{
  zeros, write_at, length-zeros, length-write_at, take-write_at_end, take-all, take-append_le,
  take-take,
}

-- What strncpy writes to `n` bytes.
abbrev pub strncpy_bytes : (title : List ℕ) (n : ℕ) → List ℕ
strncpy_bytes title n = take n title ++ zeros (n - length title)

unfoldable pub set_process_title : (title buffer : List ℕ) → List ℕ
set_process_title title buffer =
    let size = length buffer in
    if ltb (length title) 1 || ltb size 1
    then buffer
    else (let copied = write_at 0 (strncpy_bytes title size) buffer in
        if ltb (length title) size
        then write_at (length title) (zeros (size - length title)) copied
        else write_at (size - 1) (0 ∷ []) copied)

length-strncpy_bytes : (title : List ℕ) (n : ℕ) → length (strncpy_bytes title n) ≡ n
length-strncpy_bytes title n = omega (
  arith,
  length-append (take n title) (zeros (n - length title)),
  length-take n title,
  length-zeros (n - length title),
)

write_at-all : (bytes block : List ℕ) → length bytes ≡ length block → write_at 0 bytes block ≡ bytes
write_at-all bytes block e =
    sym (
      take-all (length block) (write_at 0 bytes block)
        (omega (arith, length-write_at 0 bytes block)))
    ∙ take-write_at_end (length block) 0 bytes block (omega (arith, e)) (omega arith)

-- A write up to the end of a block.
write_at-end :
    (offset : ℕ) (bytes block : List ℕ)
    → offset + length bytes ≡ length block
    → write_at offset bytes block ≡ take offset block ++ bytes
write_at-end offset bytes block e =
    sym (
      take-all (length block) (write_at offset bytes block)
        (omega (arith, length-write_at offset bytes block)))
    ∙ take-write_at_end (length block) offset bytes block (omega (arith, e)) (omega arith)

module _ (title : List ℕ) (size : ℕ) (room : 0 < size) where
  title_fits :
      length title < size
      → write_at (length title) (zeros (size - length title)) (strncpy_bytes title size)
        ≡ take (size - 1) title ++ zeros (size - min (size - 1) (length title))
  title_fits h =
      let rest = zeros (size - length title) in
      let whole : take size title ≡ title = take-all size title (omega (arith, h)) in
      let same : size - min (size - 1) (length title) ≡ size - length title = omega (arith, h) in
      write_at-end (length title) rest (strncpy_bytes title size)
        (omega (arith, h, length-zeros (size - length title), length-strncpy_bytes title size))
      ∙ ap (λ t. take (length title) (t ++ rest) ++ rest) whole
      ∙ ap (λ t. t ++ rest)
          (take-append_le (length title) title rest (omega arith)
            ∙ take-all (length title) title (omega arith))
      ∙ ap (λ t. t ++ rest) (sym (take-all (size - 1) title (omega (arith, h))))
      ∙ ap (λ n. take (size - 1) title ++ zeros n) (sym same)

  title_cut :
      size ≤ length title
      → write_at (size - 1) (0 ∷ []) (strncpy_bytes title size)
        ≡ take (size - 1) title ++ zeros (size - min (size - 1) (length title))
  unfolding zeros
  title_cut h =
      let one : size - min (size - 1) (length title) ≡ 1 = omega (arith, h, room) in
      write_at-end (size - 1) (0 ∷ []) (strncpy_bytes title size)
        (omega (arith, room, length-strncpy_bytes title size))
      ∙ ap (λ t. t ++ 0 ∷ [])
          (take-append_le (size - 1) (take size title) (zeros (size - length title))
              (omega (arith, h, length-take size title))
            ∙ take-take (size - 1) size title (omega arith))
      ∙ ap (λ n. take (size - 1) title ++ zeros n) (sym one)

-- For a title that is not empty and a buffer with room for a byte: setProcessTitle leaves in the buffer
-- the title, cut to one byte less than the buffer, and then zeros to the end.
pub set_process_title-take :
    (title buffer : List ℕ)
    → 0 < length title
    → 0 < length buffer
    → set_process_title title buffer
      ≡ take (length buffer - 1) title
        ++ zeros (length buffer - min (length buffer - 1) (length title))
unfolding set_process_title
set_process_title-take title buffer h k =
    let size = length buffer in
    let some_title : ltb (length title) 1 ≡ false = ground (arith, h) in
    let some_room : ltb size 1 ≡ false = ground (arith, k) in
    let copied = write_at-all (strncpy_bytes title size) buffer (length-strncpy_bytes title size) in
    elim (Bool-cases (ltb (length title) size)) [
      | inl e ↦ rw (some_title, some_room, e, copied) (title_fits title size k (ground (arith, e)))
      | inr e ↦ rw (some_title, some_room, e, copied) (title_cut title size k (ground (arith, e)))
    ]
