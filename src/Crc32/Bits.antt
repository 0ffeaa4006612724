-- ===== src/Crc32/Bits.antt =====
-- Laws of exclusive or and of the byte mask, from the digits that the native operations stand for.
use Prim.Native.Nat.{min, digits, bit_and, bit_xor, bit_and-bitwise, bit_xor-bitwise, differ}
use redis_pool.Base.{
  ℕ, zero, suc, ◌+◌, ◌-◌, ◌*◌, ◌/◌, ◌%◌, ◌^◌, ◌≤◌, ◌<◌, ◌≡◌, refl, ap, ◌∙◌, arith,
}

-- More rounds than the first number has digits add nothing.
module _ (z : ℕ → ℕ) (f : ℕ → ℕ → ℕ) where
  one_more : (n a b : ℕ) → a ≤ n → digits z f (suc n) a b ≡ digits z f n a b
  one_more zero zero b h = refl
  one_more (suc n) zero b h = refl
  one_more zero (suc a) b h = elim h [ ]
  one_more (suc n) (suc a) b h =
      ap (λ q. q * 2 + f (suc a % 2) (b % 2)) (one_more n (suc a / 2) (b / 2) (omega arith))

  many_more : (k n m a b : ℕ) → a ≤ n → m ≡ k + n → digits z f m a b ≡ digits z f n a b
  many_more zero n m a b h e = let same : m ≡ n = omega arith in rw same
  many_more (suc k) n zero a b h e = absurd (omega arith)
  many_more (suc k) n (suc m) a b h e =
      one_more m a b (omega arith) ∙ many_more k n m a b h (omega arith)

  halved : (a b : ℕ) → digits z f a (suc a / 2) (b / 2) ≡ digits z f (suc a / 2) (suc a / 2) (b / 2)
  halved a b =
      many_more (a - suc a / 2) (suc a / 2) a (suc a / 2) (b / 2) (omega arith) (omega arith)

differ_parity : (x y : ℕ) → x < 2 → y < 2 → differ x y ≡ (x + y) % 2
differ_parity zero y h k = omega arith
differ_parity (suc zero) zero h k = refl
differ_parity (suc zero) (suc zero) h k = refl
differ_parity (suc zero) (suc (suc y)) h k = absurd (omega arith)
differ_parity (suc (suc x)) y h k = absurd (omega arith)

pub zero-bit_xor : (b : ℕ) → bit_xor 0 b ≡ b
zero-bit_xor b = bit_xor-bitwise 0 b

-- The lowest digit of an exclusive or, and the digits above it.
pub bit_xor_step : (a b : ℕ) → bit_xor a b ≡ bit_xor (a / 2) (b / 2) * 2 + (a + b) % 2
bit_xor_step zero b = omega (arith, zero-bit_xor b, zero-bit_xor (b / 2))
bit_xor_step (suc a) b = omega (
  arith,
  bit_xor-bitwise (suc a) b,
  bit_xor-bitwise (suc a / 2) (b / 2),
  halved (λ y. y) differ a b,
  differ_parity (suc a % 2) (b % 2) (omega arith) (omega arith),
)

zero-bit_and : (b : ℕ) → bit_and 0 b ≡ 0
zero-bit_and b = bit_and-bitwise 0 b

bit_and_step : (m n : ℕ) → bit_and m n ≡ min (m % 2) (n % 2) + bit_and (m / 2) (n / 2) * 2
bit_and_step zero n = omega (arith, zero-bit_and (n / 2), zero-bit_and n)
bit_and_step (suc m) n =
    let above = bit_and-bitwise (suc m / 2) (n / 2) in
    omega (arith, halved (λ _. 0) min m n, above, bit_and-bitwise (suc m) n)

bit_and-zero_below : (n a : ℕ) → a ≤ n → bit_and a 0 ≡ 0
bit_and-zero_below n zero h = refl
bit_and-zero_below zero (suc a) h = elim h [ ]
bit_and-zero_below (suc n) (suc a) h =
    omega (arith, bit_and_step (suc a) 0, bit_and-zero_below n (suc a / 2) (omega arith))

bit_and-three : (a : ℕ) → bit_and a 3 ≡ a % 4
bit_and-three a = omega (
  arith,
  bit_and_step a 3,
  bit_and_step (a / 2) 1,
  bit_and-zero_below (a / 2 / 2) (a / 2 / 2) (omega arith),
)

bit_and_nibble : (a : ℕ) → bit_and a 15 ≡ a % 16
bit_and_nibble a =
    omega (arith, bit_and_step a 15, bit_and_step (a / 2) 7, bit_and-three (a / 2 / 2))

-- The mask 0xff gives the remainder by 256.
pub bit_and_byte : (a : ℕ) → bit_and a 0xff ≡ a % 2 ^ 8
bit_and_byte a = omega (
  arith,
  bit_and_step a 255,
  bit_and_step (a / 2) 127,
  bit_and_step (a / 2 / 2) 63,
  bit_and_step (a / 2 / 2 / 2) 31,
  bit_and_nibble (a / 2 / 2 / 2 / 2),
)

pub bit_xor-half : (a b : ℕ) → bit_xor a b / 2 ≡ bit_xor (a / 2) (b / 2)
bit_xor-half a b = omega (arith, bit_xor_step a b)

pub bit_xor-parity : (a b : ℕ) → bit_xor a b % 2 ≡ (a + b) % 2
bit_xor-parity a b = omega (arith, bit_xor_step a b)

-- The laws below hold at numbers up to `n`, by induction on `n`: half of a number is below it.
comm_below : (n a b : ℕ) → a ≤ n → b ≤ n → bit_xor a b ≡ bit_xor b a
comm_below zero zero zero h k = refl
comm_below zero zero (suc b) h k = elim k [ ]
comm_below zero (suc a) b h k = elim h [ ]
comm_below (suc n) a b h k = omega (
  arith,
  bit_xor_step a b,
  bit_xor_step b a,
  comm_below n (a / 2) (b / 2) (omega arith) (omega arith),
)

pub bit_xor_comm : (a b : ℕ) → bit_xor a b ≡ bit_xor b a
bit_xor_comm a b = comm_below (a + b) a b (omega arith) (omega arith)

pub bit_xor-zero : (a : ℕ) → bit_xor a 0 ≡ a
bit_xor-zero a = bit_xor_comm a 0 ∙ zero-bit_xor a

self_below : (n a : ℕ) → a ≤ n → bit_xor a a ≡ 0
self_below zero zero h = refl
self_below zero (suc a) h = elim h [ ]
self_below (suc n) a h = omega (arith, bit_xor_step a a, self_below n (a / 2) (omega arith))

pub bit_xor_self : (a : ℕ) → bit_xor a a ≡ 0
bit_xor_self a = self_below a a (omega arith)

assoc_below :
    (n a b c : ℕ) → a ≤ n → b ≤ n → c ≤ n → bit_xor (bit_xor a b) c ≡ bit_xor a (bit_xor b c)
assoc_below zero zero b c h k l = rw (zero-bit_xor b, zero-bit_xor (bit_xor b c))
assoc_below zero (suc a) b c h k l = elim h [ ]
assoc_below (suc n) a b c h k l = omega (
  arith,
  bit_xor_step (bit_xor a b) c,
  bit_xor_step a (bit_xor b c),
  ap (λ q. bit_xor q (c / 2)) (bit_xor-half a b),
  ap (bit_xor (a / 2)) (bit_xor-half b c),
  bit_xor-parity a b,
  bit_xor-parity b c,
  assoc_below n (a / 2) (b / 2) (c / 2) (omega arith) (omega arith) (omega arith),
)

pub bit_xor_assoc : (a b c : ℕ) → bit_xor (bit_xor a b) c ≡ bit_xor a (bit_xor b c)
bit_xor_assoc a b c = assoc_below (a + b + c) a b c (omega arith) (omega arith) (omega arith)
