-- ===== src/Codec/Crc32/Bitwise.antt =====
-- The table against the polynomial: one byte at a time gives what one bit at a time gives.
use Prim.Native.Nat.{bit_and, bit_xor}
use native.Mathlib.Nat.{pow-suc}
use code_notebook.Base.{
  ℕ, zero, suc, ◌+◌, ◌-◌, ◌*◌, ◌/◌, ◌%◌, ◌^◌, ◌<◌, ◌≡◌, refl, ap, ◌∙◌, sym, true, ◌⊎◌, inl, inr,
  List, [], ◌∷◌, ltb, ◌==◌, ==_iff, get_or, length, arith, Bool-cases,
}
use code_notebook.Base.Bits.{holds_below, holds_below_at, bit_and_mask}
use code_notebook.Base.Bytes.{AreBytes}
use code_notebook.Base.Xor.{
  bit_xor_half, bit_xor_parity, zero-bit_xor, bit_xor-zero, bit_xor_comm, bit_xor_assoc, bit_xor-lt,
  bit_xor_fields,
}
use code_notebook.Base.Slices.{take-all}
use code_notebook.Run.{ok}
use code_notebook.Codec.Crc32.{crc32tab, sign_extend, crc_loop, crc32}

-- x^32 + x^26 + ... + 1 with its lowest power in the highest bit
abbrev polynomial : ℕ
polynomial = 0xedb88320

abbrev feedback : ℕ → ℕ
feedback zero = 0
feedback (suc n) = polynomial

-- One bit is shifted out, and the polynomial taken away if it was set.
pub shift_bit : ℕ → ℕ
shift_bit x = bit_xor (x / 2) (feedback (x % 2))

pub shift_bits : ℕ → ℕ → ℕ
shift_bits zero x = x
shift_bits (suc k) x = shift_bits k (shift_bit x)

-- The checksum by the polynomial alone.
pub bitwise_loop : ℕ → List ℕ → ℕ
bitwise_loop crc [] = crc
bitwise_loop crc (b ∷ p) = bitwise_loop (shift_bits 8 (bit_xor crc b)) p

unfoldable pub bitwise_crc32 : List ℕ → ℕ
unfolding bitwise_loop shift_bits shift_bit
bitwise_crc32 str = bit_xor (bitwise_loop 0xffffffff str) 0xffffffff

xor_regroup :
    (x y m n : ℕ) → bit_xor (bit_xor x y) (bit_xor m n) ≡ bit_xor (bit_xor x m) (bit_xor y n)
xor_regroup x y m n =
    bit_xor_assoc x y (bit_xor m n)
    ∙ ap (bit_xor x) (
        sym (bit_xor_assoc y m n)
        ∙ ap (λ (t : ℕ). bit_xor t n) (bit_xor_comm y m)
        ∙ bit_xor_assoc m y n)
    ∙ sym (bit_xor_assoc x m (bit_xor y n))

parity : (a : ℕ) → (a % 2 ≡ 0) ⊎ (a % 2 ≡ 1)
parity a = omega arith

feedback_xor : (a b : ℕ) → feedback ((a + b) % 2) ≡ bit_xor (feedback (a % 2)) (feedback (b % 2))
feedback_xor a b = go (parity a) (parity b)
  where
    go :
        (a % 2 ≡ 0) ⊎ (a % 2 ≡ 1)
        → (b % 2 ≡ 0) ⊎ (b % 2 ≡ 1)
        → feedback ((a + b) % 2) ≡ bit_xor (feedback (a % 2)) (feedback (b % 2))
    go (inl p) (inl q) = let e : (a + b) % 2 ≡ 0 = omega arith in rw (p, q, e)
    go (inl p) (inr q) = let e : (a + b) % 2 ≡ 1 = omega arith in rw (p, q, e)
    go (inr p) (inl q) = let e : (a + b) % 2 ≡ 1 = omega arith in rw (p, q, e)
    go (inr p) (inr q) = let e : (a + b) % 2 ≡ 0 = omega arith in rw (p, q, e)

shift_bit-xor : (a b : ℕ) → shift_bit (bit_xor a b) ≡ bit_xor (shift_bit a) (shift_bit b)
unfolding shift_bit
shift_bit-xor a b =
    rw (bit_xor_half a b, bit_xor_parity a b, feedback_xor a b) (xor_regroup (a / 2) (b / 2) _ _)

shift_bits-xor :
    (k a b : ℕ) → shift_bits k (bit_xor a b) ≡ bit_xor (shift_bits k a) (shift_bits k b)
unfolding shift_bits
shift_bits-xor zero a b = refl
shift_bits-xor (suc k) a b = rw (shift_bit-xor a b) (shift_bits-xor k (shift_bit a) (shift_bit b))

-- Bits above the lowest `k` only move down.
shift_bits_split :
    (k h l : ℕ) → l < 2 ^ k → shift_bits k (h * 2 ^ k + l) ≡ bit_xor h (shift_bits k l)
unfolding shift_bits shift_bit
shift_bits_split zero h zero p = rw (bit_xor-zero h) (omega arith)
shift_bits_split zero h (suc l) p = absurd (omega arith)
shift_bits_split (suc k) h l p =
    let twice = ap (λ (t : ℕ). h * t) (pow-suc 2 k) in
    let pow = pow-suc 2 k in
    let half : (h * 2 ^ suc k + l) / 2 ≡ h * 2 ^ k + l / 2 = omega (arith, twice) in
    let odd : (h * 2 ^ suc k + l) % 2 ≡ l % 2 = omega (arith, twice) in
    let ih = shift_bits_split k h (l / 2) (omega (arith, pow)) in
    rw (half, odd, shift_bits-xor k (h * 2 ^ k + l / 2), ih, shift_bits-xor k (l / 2))
      (bit_xor_assoc h _ _)

table_entries : holds_below 256 (λ i. get_or crc32tab i 0 == shift_bits 8 i) ≡ true
unfolding holds_below crc32tab shift_bits shift_bit
table_entries = refl

-- Every entry of the table is its index after eight single shifts.
pub crc32tab-shift_bits : (i : ℕ) → i < 256 → get_or crc32tab i 0 ≡ shift_bits 8 i
crc32tab-shift_bits i h =
    (==_iff _ _).0
      (holds_below_at (λ i. get_or crc32tab i 0 == shift_bits 8 i) 256 i h table_entries)

sign_extend_byte : (b : ℕ) → b < 256 → (q : ℕ) × (sign_extend b ≡ q * 2 ^ 8 + b)
unfolding sign_extend
sign_extend_byte b h = elim (Bool-cases (ltb b 128)) [
  | inl small ↦ (0, rw small (omega arith))
  | inr big ↦ (2 ^ 24 - 1, rw big (ground arith))
]

-- The register and one byte: the byte meets the lowest eight bits only.
byte_meets :
    (crc b : ℕ)
    → b < 256
    → (bit_xor crc b ≡ crc / 256 * 256 + bit_xor (crc % 256) b)
      × (bit_and (bit_xor crc (sign_extend b)) 0xff ≡ bit_xor (crc % 256) b)
byte_meets crc b h =
    let (q, e) = sign_extend_byte b h in
    let split : crc ≡ crc / 256 * 2 ^ 8 + crc % 256 = omega arith in
    let low = bit_xor-lt 8 (crc % 256) b (omega arith) h in
    let plain = bit_xor_fields 8 (crc / 256) 0 (crc % 256) b (omega arith) h in
    let signed = bit_xor_fields 8 (crc / 256) q (crc % 256) b (omega arith) h in
    let b0 : 0 * 2 ^ 8 + b ≡ b = omega arith in
    (
      rw (← split, b0, bit_xor-zero) at plain,
      rw (bit_and_mask 8, e) (omega (arith, rw (← split) at signed)),
    )

one_byte :
    (crc b : ℕ)
    → crc < 2 ^ 32
    → b < 256
    → bit_xor
        (bit_and (crc / 2 ^ 8) 0x00ffffff)
        (get_or crc32tab (bit_and (bit_xor crc (sign_extend b)) 0xff) 0)
      ≡ shift_bits 8 (bit_xor crc b)
one_byte crc b h p =
    let (whole, index) = byte_meets crc b p in
    let low = bit_xor-lt 8 (crc % 256) b (omega arith) p in
    let top : bit_and (crc / 2 ^ 8) 0x00ffffff ≡ crc / 256 =
      omega (arith, bit_and_mask 24 (crc / 256)) in
    rw (index, top, crc32tab-shift_bits _ low, whole)
      (sym (shift_bits_split 8 (crc / 256) (bit_xor (crc % 256) b) low))

shift_bit-lt : (x : ℕ) → x < 2 ^ 32 → shift_bit x < 2 ^ 32
unfolding shift_bit
shift_bit-lt x h = bit_xor-lt 32 (x / 2) (feedback (x % 2)) (omega arith) (small (x % 2))
  where
    small : (n : ℕ) → feedback n < 2 ^ 32
    small zero = omega arith
    small (suc n) = omega arith

shift_bits-lt : (k x : ℕ) → x < 2 ^ 32 → shift_bits k x < 2 ^ 32
unfolding shift_bits
shift_bits-lt zero x h = h
shift_bits-lt (suc k) x h = shift_bits-lt k (shift_bit x) (shift_bit-lt x h)

crc_loop-bitwise_loop :
    (crc : ℕ) (p : List ℕ) → crc < 2 ^ 32 → AreBytes p → crc_loop crc p ≡ bitwise_loop crc p
unfolding crc_loop bitwise_loop
crc_loop-bitwise_loop crc [] h bytes = refl
crc_loop-bitwise_loop crc (b ∷ p) h (byte, bytes) =
    let next = bit_xor-lt 32 crc b h (omega arith) in
    rw (one_byte crc b h byte)
      (crc_loop-bitwise_loop (shift_bits 8 (bit_xor crc b)) p (shift_bits-lt 8 _ next) bytes)

-- For every string of fewer than 2 ^ 31 bytes, signed characters included, the table-driven s_crc32 gives the
-- checksum that the generating polynomial defines one bit at a time.
pub crc32-bitwise_crc32 :
    (str : List ℕ) → AreBytes str → length str < 2 ^ 31 → crc32 str ≡ ok (bitwise_crc32 str)
unfolding crc32 bitwise_crc32
crc32-bitwise_crc32 str bytes fits =
    let whole : length str % 2 ^ 32 ≡ length str = omega arith in
    let positive : ltb (length str) (2 ^ 31) ≡ true = ground arith in
    rw
      (
        whole,
        positive,
        take-all (length str) str (omega arith),
        zero-bit_xor 0xffffffff,
        crc_loop-bitwise_loop 0xffffffff str (omega arith) bytes,
      )
      refl
