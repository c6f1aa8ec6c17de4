-- ===== src/Base/Xor.antt =====
-- The laws of `^` on numbers of any width, from its law for the lowest digit.
use Prim.Native.Nat.{ℕ, zero, suc, ◌+◌, ◌*◌, ◌/◌, ◌%◌, ◌<◌, ◌^◌, bit_xor, differ, bit_xor-bitwise}
use mathlib.Core.Path.{◌≡◌, refl, ap}
use native.Mathlib.Nat.{pow-suc}
use native.Mathlib.Omega.{arith}
use code_notebook.Base.Bits.{by_halving, lowest_digit}

differ_parity : (x y : ℕ) → x < 2 → y < 2 → differ x y ≡ (x + y) % 2
differ_parity zero y p q = omega arith
differ_parity (suc zero) zero p q = refl
differ_parity (suc zero) (suc zero) p q = refl
differ_parity (suc zero) (suc (suc y)) p q = absurd (omega arith)
differ_parity (suc (suc x)) y p q = absurd (omega arith)

bit_xor_step : (a b : ℕ) → bit_xor a b ≡ bit_xor (a / 2) (b / 2) * 2 + (a + b) % 2
bit_xor_step zero b = omega (arith, bit_xor-bitwise 0 b, bit_xor-bitwise 0 (b / 2))
bit_xor_step (suc a) b = omega (
  arith,
  bit_xor-bitwise (suc a) b,
  bit_xor-bitwise (suc a / 2) (b / 2),
  lowest_digit _ differ a b,
  differ_parity (suc a % 2) (b % 2) (omega arith) (omega arith),
)

-- The two digits apart.
pub bit_xor_half : (a b : ℕ) → bit_xor a b / 2 ≡ bit_xor (a / 2) (b / 2)
bit_xor_half a b = omega (arith, bit_xor_step a b)

pub bit_xor_parity : (a b : ℕ) → bit_xor a b % 2 ≡ (a + b) % 2
bit_xor_parity a b = omega (arith, bit_xor_step a b)

pub zero-bit_xor : (b : ℕ) → bit_xor 0 b ≡ b
zero-bit_xor b = bit_xor-bitwise 0 b

pub bit_xor-zero : (a : ℕ) → bit_xor a 0 ≡ a
bit_xor-zero = by_halving _ refl (λ n ih. omega (arith, bit_xor_step (suc n) 0, ih))

pub bit_xor_self : (a : ℕ) → bit_xor a a ≡ 0
bit_xor_self = by_halving _ refl (λ n ih. omega (arith, bit_xor_step (suc n) (suc n), ih))

pub bit_xor_comm : (a b : ℕ) → bit_xor a b ≡ bit_xor b a
bit_xor_comm =
    by_halving (λ a. (b : ℕ) → bit_xor a b ≡ bit_xor b a)
      (λ b. omega (arith, zero-bit_xor b, bit_xor-zero b))
      (λ n ih b. omega (arith, bit_xor_step (suc n) b, bit_xor_step b (suc n), ih (b / 2)))

pub bit_xor_assoc : (a b c : ℕ) → bit_xor (bit_xor a b) c ≡ bit_xor a (bit_xor b c)
bit_xor_assoc =
    by_halving (λ a. (b c : ℕ) → bit_xor (bit_xor a b) c ≡ bit_xor a (bit_xor b c))
      (λ b c. rw (zero-bit_xor b, zero-bit_xor (bit_xor b c)))
      (λ n ih b c. step (suc n) b c (ih (b / 2) (c / 2)))
  where
    step :
        (a b c : ℕ)
        → bit_xor (bit_xor (a / 2) (b / 2)) (c / 2) ≡ bit_xor (a / 2) (bit_xor (b / 2) (c / 2))
        → bit_xor (bit_xor a b) c ≡ bit_xor a (bit_xor b c)
    step a b c ih =
        let left = bit_xor_step (bit_xor a b) c in
        let right = bit_xor_step a (bit_xor b c) in
        omega (
          arith,
          rw (bit_xor_half a b) at left,
          rw (bit_xor_half b c) at right,
          bit_xor_parity a b,
          bit_xor_parity b c,
          ih,
        )

-- Numbers of `k` digits stay so.
pub bit_xor-lt : (k a b : ℕ) → a < 2 ^ k → b < 2 ^ k → bit_xor a b < 2 ^ k
bit_xor-lt zero zero b p q = rw (zero-bit_xor b) q
bit_xor-lt zero (suc a) b p q = absurd (omega arith)
bit_xor-lt (suc k) a b p q =
    let twice = pow-suc 2 k in
    omega (
      arith,
      twice,
      bit_xor_half a b,
      bit_xor-lt k (a / 2) (b / 2) (omega (arith, twice)) (omega (arith, twice)),
    )

-- The digits above and below place `k` do not meet.
pub bit_xor_fields :
    (k p q r s : ℕ)
    → r < 2 ^ k
    → s < 2 ^ k
    → bit_xor (p * 2 ^ k + r) (q * 2 ^ k + s) ≡ bit_xor p q * 2 ^ k + bit_xor r s
bit_xor_fields zero p q zero zero h h' =
    let e : p * 2 ^ 0 + 0 ≡ p = omega arith in
    let e' : q * 2 ^ 0 + 0 ≡ q = omega arith in rw (e, e') (omega (arith, zero-bit_xor 0))
bit_xor_fields zero p q (suc r) s h h' = absurd (omega arith)
bit_xor_fields zero p q zero (suc s) h h' = absurd (omega arith)
bit_xor_fields (suc k) p q r s h h' =
    let two = pow-suc 2 k in
    let a = p * 2 ^ suc k + r in
    let b = q * 2 ^ suc k + s in
    let p2 = ap (λ (t : ℕ). p * t) two in
    let q2 = ap (λ (t : ℕ). q * t) two in
    let x2 = ap (λ (t : ℕ). bit_xor p q * t) two in
    let ea : a / 2 ≡ p * 2 ^ k + r / 2 = omega (arith, p2) in
    let eb : b / 2 ≡ q * 2 ^ k + s / 2 = omega (arith, q2) in
    let half = rw (ea, eb) at (bit_xor_half a b) in
    let ih = bit_xor_fields k p q (r / 2) (s / 2) (omega (arith, two)) (omega (arith, two)) in
    omega (arith, half, ih, p2, q2, x2, bit_xor_parity a b, bit_xor_half r s, bit_xor_parity r s)
