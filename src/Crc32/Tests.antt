-- ===== src/Crc32/Tests.antt =====
-- The checksum of a text.
use Prim.Native.Nat.{bit_xor}
use redis_pool.Base.{ℕ, ◌≡◌, refl, List, [], ◌∷◌, arith}
use redis_pool.Crc32.{crc32}
use redis_pool.Crc32.Bitwise.{bitwise_loop, crc32-bitwise}

abbrev digits : List ℕ
digits = b'1' ∷ b'2' ∷ b'3' ∷ b'4' ∷ b'5' ∷ b'6' ∷ b'7' ∷ b'8' ∷ b'9' ∷ []

-- The check value of CRC-32.
crc32-digits : crc32 digits ≡ 0xcbf4_3926
unfolding crc32
crc32-digits = refl

crc32-bitwise_example : crc32 digits ≡ bit_xor (bitwise_loop 0xffff_ffff digits) 0xffff_ffff
crc32-bitwise_example = crc32-bitwise digits (ground arith)
