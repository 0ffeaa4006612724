-- ===== src/Types/Memory.antt =====
-- Blocks of bytes as src/types.c uses them: memcpy, memmove and memset write a run of bytes at an
-- offset of a block, and realloc answers as its manual says. The part of a run that lies behind the
-- end of the block is counted, since that write is not to the block.
use redis_pool.Base.{
  ℕ, zero, suc, ◌+◌, ◌-◌, ◌≤◌, ◌≡◌, refl, ap, ◌∙◌, List, [], ◌∷◌, ◌++◌, arith, length, take, drop,
  length-append, length-take,
}

-- Bytes that nothing has initialised: `garbage i` stands at offset `i`.
pub fill : (garbage : ℕ → ℕ) (from count : ℕ) → List ℕ
fill garbage from zero = []
fill garbage from (suc count) = garbage from ∷ fill garbage (from + 1) count

-- What memset(_, 0, count) writes.
unfoldable pub zeros : ℕ → List ℕ
zeros zero = []
zeros (suc n) = 0 ∷ zeros n

-- The answer of realloc: NULL, the same block made longer or shorter, or another block, after
-- which the old one is freed. Bytes behind the old length are not initialised.
pub data Realloc : Type 0 where
  failed : Realloc
  in_place moved : (garbage : ℕ → ℕ) → Realloc

pub realloc_block : (garbage : ℕ → ℕ) (size : ℕ) → List ℕ → List ℕ
unfolding fill
realloc_block garbage size block =
    take size block ++ fill garbage (length block) (size - length block)

-- The block after a write of `bytes` at an offset, and the number of bytes behind its end.
pub write_at : (offset : ℕ) (bytes block : List ℕ) → List ℕ
write_at zero [] block = block
write_at zero (b ∷ bytes) [] = []
write_at zero (b ∷ bytes) (x ∷ block) = b ∷ write_at zero bytes block
write_at (suc offset) bytes [] = []
write_at (suc offset) bytes (x ∷ block) = x ∷ write_at offset bytes block

abbrev pub stray_bytes : (offset count : ℕ) → List ℕ → ℕ
stray_bytes offset count block = count - (length block - offset)

pub length-zeros : (n : ℕ) → length (zeros n) ≡ n
unfolding zeros
length-zeros zero = refl
length-zeros (suc n) = ap suc (length-zeros n)

length-fill : (garbage : ℕ → ℕ) (from n : ℕ) → length (fill garbage from n) ≡ n
unfolding fill
length-fill garbage from zero = refl
length-fill garbage from (suc n) = ap suc (length-fill garbage (from + 1) n)

pub length-realloc_block :
    (garbage : ℕ → ℕ) (size : ℕ) (block : List ℕ) → length (realloc_block garbage size block) ≡ size
unfolding realloc_block
length-realloc_block garbage size block = omega (
  arith,
  length-append (take size block) (fill garbage (length block) (size - length block)),
  length-take size block,
  length-fill garbage (length block) (size - length block),
)

pub length-write_at :
    (offset : ℕ) (bytes block : List ℕ) → length (write_at offset bytes block) ≡ length block
unfolding write_at
length-write_at zero [] block = refl
length-write_at zero (b ∷ bytes) [] = refl
length-write_at zero (b ∷ bytes) (x ∷ block) = ap suc (length-write_at zero bytes block)
length-write_at (suc offset) bytes [] = refl
length-write_at (suc offset) bytes (x ∷ block) = ap suc (length-write_at offset bytes block)

-- A write leaves what stands below its offset.
pub take-write_at :
    (n offset : ℕ) (bytes block : List ℕ)
    → n ≤ offset
    → take n (write_at offset bytes block) ≡ take n block
unfolding write_at
take-write_at zero offset bytes block h = refl
take-write_at (suc n) zero bytes block h = elim h [ ]
take-write_at (suc n) (suc offset) bytes [] h = refl
take-write_at (suc n) (suc offset) bytes (x ∷ block) h =
    ap (◌∷◌ x) (take-write_at n offset bytes block (omega arith))

-- Up to its end a write that fits gives the old bytes and then the new ones.
pub take-write_at_end :
    (n offset : ℕ) (bytes block : List ℕ)
    → n ≡ offset + length bytes
    → n ≤ length block
    → take n (write_at offset bytes block) ≡ take offset block ++ bytes
unfolding write_at
take-write_at_end zero zero [] block e h = refl
take-write_at_end zero zero (b ∷ bytes) block e h = absurd (omega arith)
take-write_at_end zero (suc offset) bytes block e h = absurd (omega arith)
take-write_at_end (suc n) zero [] block e h = absurd (omega arith)
take-write_at_end (suc n) zero (b ∷ bytes) [] e h = elim h [ ]
take-write_at_end (suc n) zero (b ∷ bytes) (x ∷ block) e h =
    ap (◌∷◌ b) (take-write_at_end n zero bytes block (omega arith) (omega arith))
take-write_at_end (suc n) (suc offset) bytes [] e h = elim h [ ]
take-write_at_end (suc n) (suc offset) bytes (x ∷ block) e h =
    ap (◌∷◌ x) (take-write_at_end n offset bytes block (omega arith) (omega arith))

pub take-take : (n m : ℕ) (xs : List ℕ) → n ≤ m → take n (take m xs) ≡ take n xs
take-take zero m xs h = refl
take-take (suc n) zero xs h = elim h [ ]
take-take (suc n) (suc m) [] h = refl
take-take (suc n) (suc m) (x ∷ xs) h = ap (◌∷◌ x) (take-take n m xs (omega arith))

pub take-all : (n : ℕ) (xs : List ℕ) → length xs ≤ n → take n xs ≡ xs
take-all zero [] h = refl
take-all zero (x ∷ xs) h = elim h [ ]
take-all (suc n) [] h = refl
take-all (suc n) (x ∷ xs) h = ap (◌∷◌ x) (take-all n xs (omega arith))

pub take-append_le : (n : ℕ) (xs ys : List ℕ) → n ≤ length xs → take n (xs ++ ys) ≡ take n xs
take-append_le zero xs ys h = refl
take-append_le (suc n) [] ys h = elim h [ ]
take-append_le (suc n) (x ∷ xs) ys h = ap (◌∷◌ x) (take-append_le n xs ys (omega arith))

-- realloc keeps the bytes that both sizes cover.
pub take-realloc_block :
    (n size : ℕ) (garbage : ℕ → ℕ) (block : List ℕ)
    → n ≤ size
    → n ≤ length block
    → take n (realloc_block garbage size block) ≡ take n block
unfolding realloc_block
take-realloc_block n size garbage block h k =
    take-append_le n (take size block) _ (omega (arith, length-take size block))
    ∙ take-take n size block h

take-nil : (n : ℕ) → take {A = ℕ} n [] ≡ []
take-nil zero = refl
take-nil (suc n) = refl

pub take-drop : (n m k : ℕ) (xs : List ℕ) → k ≡ m + n → take n (drop m xs) ≡ drop m (take k xs)
take-drop n zero k xs e = let same : k ≡ n = omega arith in rw same
take-drop n (suc m) zero xs e = absurd (omega arith)
take-drop n (suc m) (suc k) [] e = take-nil n
take-drop n (suc m) (suc k) (x ∷ xs) e = take-drop n m k xs (omega arith)

pub drop-all : (n : ℕ) (xs : List ℕ) → length xs ≤ n → drop n xs ≡ []
drop-all zero [] h = refl
drop-all zero (x ∷ xs) h = elim h [ ]
drop-all (suc n) [] h = refl
drop-all (suc n) (x ∷ xs) h = drop-all n xs (omega arith)

pub drop-more : (k m n : ℕ) (xs : List ℕ) → k ≡ m + n → drop k xs ≡ drop n (drop m xs)
drop-more k zero n xs e = let same : k ≡ n = omega arith in rw same
drop-more zero (suc m) n xs e = absurd (omega arith)
drop-more (suc k) (suc m) zero [] e = refl
drop-more (suc k) (suc m) (suc n) [] e = refl
drop-more (suc k) (suc m) n (x ∷ xs) e = drop-more k m n xs (omega arith)

pub take-drop-append : (n : ℕ) (xs : List ℕ) → take n xs ++ drop n xs ≡ xs
take-drop-append zero xs = refl
take-drop-append (suc n) [] = refl
take-drop-append (suc n) (x ∷ xs) = ap (◌∷◌ x) (take-drop-append n xs)
