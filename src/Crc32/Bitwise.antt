-- ===== src/Crc32/Bitwise.antt =====
-- The table of src/crc32.c against the division by the polynomial, one bit at a time.
use Prim.Native.Nat.{bit_and, bit_xor}
use native.Mathlib.Nat.{pow-suc}
use redis_pool.Base.{
  ℕ, zero, suc, ◌+◌, ◌*◌, ◌/◌, ◌%◌, ◌^◌, ◌<◌, ◌≡◌, refl, ap, sym, ◌∙◌, Bool, true, ◌&&◌, List, [],
  ◌∷◌, arith, ◌==◌, if◌then◌else◌, get_or,
}
use redis_pool.Crc32.{crc32tab, crc_byte, crc_loop, crc32}
use redis_pool.Crc32.Bits.{
  bit_and_byte, bit_xor_step, bit_xor-half, bit_xor-parity, bit_xor_comm, bit_xor-zero,
  bit_xor_assoc,
}

-- The reversed polynomial of CRC-32 if the bit that falls out is 1.
pub feedback : ℕ → ℕ
feedback d = if d == 1 then 0xedb8_8320 else 0

unfoldable pub bit_step : ℕ → ℕ
bit_step s = bit_xor (s / 2) (feedback (s % 2))

unfoldable pub steps : ℕ → ℕ → ℕ
steps zero s = s
steps (suc k) s = steps k (bit_step s)

unfoldable pub bitwise_loop : ℕ → List ℕ → ℕ
bitwise_loop crc [] = crc
bitwise_loop crc (b ∷ buf) = bitwise_loop (steps 8 (bit_xor crc b)) buf

abbrev pub AreBytes : List ℕ → Type 0
AreBytes [] = Unit {0}
AreBytes (b ∷ bs) = (b < 256) × AreBytes bs

table_upto : ℕ → Bool
table_upto zero = true
table_upto (suc n) = (get_or crc32tab n 0 == steps 8 n) && table_upto n

table_upto-at : (n i : ℕ) → table_upto n ≡ true → i < n → get_or crc32tab i 0 ≡ steps 8 i
unfolding table_upto
table_upto-at zero i h k = elim k [ ]
table_upto-at (suc n) i h k = ground (arith, table_upto-at n i, ap (λ j. get_or crc32tab j 0))

table_checked : table_upto 256 ≡ true
unfolding table_upto steps bit_step feedback crc32tab
table_checked = refl

interchange :
    (a b c d : ℕ) → bit_xor (bit_xor a b) (bit_xor c d) ≡ bit_xor (bit_xor a c) (bit_xor b d)
interchange a b c d = cc (
  bit_xor_assoc a b (bit_xor c d),
  bit_xor_assoc b c d,
  bit_xor_comm b c,
  bit_xor_assoc c b d,
  bit_xor_assoc a c (bit_xor b d),
)

feedback-xor :
    (a b : ℕ) → feedback (bit_xor a b % 2) ≡ bit_xor (feedback (a % 2)) (feedback (b % 2))
unfolding feedback
feedback-xor a b = ground (arith, bit_xor-parity a b)

bit_step-xor : (a b : ℕ) → bit_step (bit_xor a b) ≡ bit_xor (bit_step a) (bit_step b)
unfolding bit_step
bit_step-xor a b =
    rw (bit_xor-half a b, feedback-xor a b)
      (interchange (a / 2) (b / 2) (feedback (a % 2)) (feedback (b % 2)))

steps-xor : (k a b : ℕ) → steps k (bit_xor a b) ≡ bit_xor (steps k a) (steps k b)
unfolding steps
steps-xor zero a b = refl
steps-xor (suc k) a b = ap (steps k) (bit_step-xor a b) ∙ steps-xor k (bit_step a) (bit_step b)

bit_step-even : (m : ℕ) → bit_step (m * 2) ≡ m
unfolding bit_step feedback
bit_step-even m =
    let bit : m * 2 % 2 ≡ 0 = omega arith in
    let half : m * 2 / 2 ≡ m = omega arith in rw (bit, half) (bit_xor-zero m)

-- While zeros fall out nothing is fed back.
steps-mul : (k m : ℕ) → steps k (m * 2 ^ k) ≡ m
unfolding steps
steps-mul zero m = omega arith
steps-mul (suc k) m =
    let double : m * 2 ^ suc k ≡ m * 2 ^ k * 2 =
      omega (arith, ap (λ (t : ℕ). m * t) (pow-suc 2 k)) in
    ap (λ s. steps k (bit_step s)) double ∙ ap (steps k) (bit_step-even (m * 2 ^ k)) ∙ steps-mul k m

double_pow : (k q : ℕ) → q * 2 ^ suc k ≡ q * 2 ^ k * 2
double_pow k q = omega (arith, ap (λ (t : ℕ). q * t) (pow-suc 2 k))

half_lt : (k r : ℕ) → r < 2 ^ suc k → r / 2 < 2 ^ k
half_lt k r h = omega (arith, pow-suc 2 k)

-- Disjoint digits: an exclusive or puts a number together from its parts.
xor_fields : (k q r : ℕ) → r < 2 ^ k → bit_xor (q * 2 ^ k) r ≡ q * 2 ^ k + r
xor_fields zero q r h =
    let none_left : r ≡ 0 = omega arith in
    ap (bit_xor (q * 2 ^ 0)) none_left ∙ bit_xor-zero (q * 2 ^ 0) ∙ omega arith
xor_fields (suc k) q r h =
    let half : q * 2 ^ suc k / 2 ≡ q * 2 ^ k = omega (arith, double_pow k q) in
    omega (
      arith,
      bit_xor_step (q * 2 ^ suc k) r,
      ap (λ t. bit_xor t (r / 2)) half,
      xor_fields k q (r / 2) (half_lt k r h),
      double_pow k q,
    )

bit_xor-lt : (k a b : ℕ) → a < 2 ^ k → b < 2 ^ k → bit_xor a b < 2 ^ k
bit_xor-lt zero a b h l =
    let left : a ≡ 0 = omega arith in
    let right : b ≡ 0 = omega arith in rw (left, right) (omega arith)
bit_xor-lt (suc k) a b h l = omega (
  arith,
  bit_xor_step a b,
  bit_xor-lt k (a / 2) (b / 2) (half_lt k a h) (half_lt k b l),
  pow-suc 2 k,
)

-- Eight steps: the high bits move down, and the low byte is looked up.
steps-byte : (s : ℕ) → steps 8 s ≡ bit_xor (s / 2 ^ 8) (steps 8 (s % 2 ^ 8))
steps-byte s =
    let parts : s ≡ bit_xor (s / 2 ^ 8 * 2 ^ 8) (s % 2 ^ 8) =
      omega (arith, xor_fields 8 (s / 2 ^ 8) (s % 2 ^ 8)) in
    ap (steps 8) parts
    ∙ steps-xor 8 (s / 2 ^ 8 * 2 ^ 8) (s % 2 ^ 8)
    ∙ ap (λ t. bit_xor t (steps 8 (s % 2 ^ 8))) (steps-mul 8 (s / 2 ^ 8))

-- A byte leaves the bits above it.
xor-byte_above : (crc b : ℕ) → b < 256 → bit_xor crc b / 2 ^ 8 ≡ crc / 2 ^ 8
xor-byte_above crc b h =
    let q = crc / 2 ^ 8 in
    let r = crc % 2 ^ 8 in
    let parts : crc ≡ bit_xor (q * 2 ^ 8) r = omega (arith, xor_fields 8 q r) in
    omega (
      arith,
      ap (λ t. bit_xor t b) parts,
      bit_xor_assoc (q * 2 ^ 8) r b,
      bit_xor-lt 8 r b,
      xor_fields 8 q (bit_xor r b),
    )

crc_byte-steps : (crc b : ℕ) → b < 256 → crc_byte crc b ≡ steps 8 (bit_xor crc b)
unfolding crc_byte
crc_byte-steps crc b h =
    let x = bit_xor crc b in
    bit_xor_comm (get_or crc32tab (bit_and x 0xff) 0) (crc / 2 ^ 8)
    ∙ ap (λ i. bit_xor (crc / 2 ^ 8) (get_or crc32tab i 0)) (bit_and_byte x)
    ∙ ap (bit_xor (crc / 2 ^ 8)) (table_upto-at 256 (x % 2 ^ 8) table_checked (omega arith))
    ∙ ap (λ t. bit_xor t (steps 8 (x % 2 ^ 8))) (sym (xor-byte_above crc b h))
    ∙ sym (steps-byte x)

crc_loop-bitwise_loop :
    (crc : ℕ) (buf : List ℕ) → AreBytes buf → crc_loop crc buf ≡ bitwise_loop crc buf
unfolding crc_loop bitwise_loop
crc_loop-bitwise_loop crc [] h = refl
crc_loop-bitwise_loop crc (b ∷ buf) h =
    ap (λ c. crc_loop c buf) (crc_byte-steps crc b h.0)
    ∙ crc_loop-bitwise_loop (steps 8 (bit_xor crc b)) buf h.1

-- The table-driven checksum of any bytes is the one computed bit by bit from the polynomial, with
-- the same initial and final inversion.
pub crc32-bitwise :
    (buf : List ℕ) → AreBytes buf → crc32 buf ≡ bit_xor (bitwise_loop 0xffff_ffff buf) 0xffff_ffff
unfolding crc32
crc32-bitwise buf h = ap (λ c. bit_xor c 0xffff_ffff) (crc_loop-bitwise_loop 0xffff_ffff buf h)
