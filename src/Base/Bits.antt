-- ===== src/Base/Bits.antt =====
-- The bit operations of C at variables: a law for the lowest digit, and from it masks and the
-- joining of disjoint fields. Facts about one byte are checked value by value.
use Prim.Native.Nat.{
  ℕ, zero, suc, ◌+◌, ◌-◌, ◌*◌, ◌/◌, ◌%◌, ◌^◌, ◌≤◌, ◌<◌, min, max, bit_and, bit_or, digits,
  bit_and-bitwise, bit_or-bitwise,
}
use mathlib.Core.Path.{◌≡◌, refl, ap}
use mathlib.Core.Bool.{Bool, true, ◌&&◌}
use native.Mathlib.Nat.{pow-suc, one-le-pow}
use native.Mathlib.Omega.{arith}

-- `p` holds below `n`, found by evaluation.
unfoldable pub holds_below : ℕ → (ℕ → Bool) → Bool
holds_below zero p = true
holds_below (suc n) p = p n && holds_below n p

pub holds_below_at : (p : ℕ → Bool) (n x : ℕ) → x < n → holds_below n p ≡ true → p x ≡ true
unfolding holds_below
holds_below_at p zero x below h = absurd (omega arith)
holds_below_at p (suc n) x below h = ground (arith, holds_below_at p n x)

pub by_halving {ℓ} : (P : ℕ → Type ℓ) → P 0 → ((n : ℕ) → P (suc n / 2) → P (suc n)) → (n : ℕ) → P n
by_halving P base step n = up_to n n (omega arith)
  where
    up_to : (bound m : ℕ) → m ≤ bound → P m
    up_to bound zero h = base
    up_to zero (suc m) h = absurd (omega arith)
    up_to (suc bound) (suc m) h = step m (up_to bound (suc m / 2) (omega arith))

-- The native operations are recursions on digits with fuel; any fuel from `a` on will do.
module _ (z : ℕ → ℕ) (f : ℕ → ℕ → ℕ) where
  digits_enough : (b a n m : ℕ) → a ≤ n → a ≤ m → digits z f n a b ≡ digits z f m a b
  digits_enough b zero zero zero p q = refl
  digits_enough b zero zero (suc m) p q = refl
  digits_enough b zero (suc n) zero p q = refl
  digits_enough b zero (suc n) (suc m) p q = refl
  digits_enough b (suc a) zero m p q = absurd (omega arith)
  digits_enough b (suc a) (suc n) zero p q = absurd (omega arith)
  digits_enough b (suc a) (suc n) (suc m) p q =
      omega (arith, digits_enough (b / 2) (suc a / 2) n m (omega arith) (omega arith))

  pub lowest_digit :
      (a b : ℕ)
      → digits z f (suc a) (suc a) b
        ≡ digits z f (suc a / 2) (suc a / 2) (b / 2) * 2 + f (suc a % 2) (b % 2)
  lowest_digit a b =
      omega (arith, digits_enough (b / 2) (suc a / 2) a (suc a / 2) (omega arith) (omega arith))

pub bit_or_step : (a b : ℕ) → bit_or a b ≡ bit_or (a / 2) (b / 2) * 2 + max (a % 2) (b % 2)
bit_or_step zero b = omega (arith, bit_or-bitwise 0 b, bit_or-bitwise 0 (b / 2))
bit_or_step (suc a) b =
    omega
      (arith, bit_or-bitwise (suc a) b, bit_or-bitwise (suc a / 2) (b / 2), lowest_digit _ max a b)

pub bit_and_step : (a b : ℕ) → bit_and a b ≡ bit_and (a / 2) (b / 2) * 2 + min (a % 2) (b % 2)
bit_and_step zero b = omega (arith, bit_and-bitwise 0 b, bit_and-bitwise 0 (b / 2))
bit_and_step (suc a) b =
    omega (
      arith,
      bit_and-bitwise (suc a) b,
      bit_and-bitwise (suc a / 2) (b / 2),
      lowest_digit _ min a b,
    )

pub bit_or-zero : (a : ℕ) → bit_or a 0 ≡ a
bit_or-zero = by_halving _ refl (λ n ih. omega (arith, bit_or_step (suc n) 0, ih))

pub bit_and-zero : (a : ℕ) → bit_and a 0 ≡ 0
bit_and-zero = by_halving _ refl (λ n ih. omega (arith, bit_and_step (suc n) 0, ih))

pub zero-bit_and : (b : ℕ) → bit_and 0 b ≡ 0
zero-bit_and = by_halving _ refl (λ n ih. omega (arith, bit_and_step 0 (suc n), ih))

pub bit_and-le : (a b : ℕ) → bit_and a b ≤ a
bit_and-le =
    by_halving _ (λ b. omega (arith, zero-bit_and b))
      (λ n ih b. omega (arith, bit_and_step (suc n) b, ih (b / 2)))

-- One more digit of a mask or of a shift.
double : (k q : ℕ) → (2 ^ suc k ≡ 2 * 2 ^ k) × (q * 2 ^ suc k ≡ 2 * (q * 2 ^ k)) × (1 ≤ 2 ^ k)
double k q =
    let twice = pow-suc 2 k in
    (omega (arith, twice), omega (arith, ap (λ (t : ℕ). q * t) twice), one-le-pow k 2 (omega arith))

-- `(q << k) | r` is a sum when `r` has at most `k` digits.
pub bit_or_disjoint : (k q r : ℕ) → r < 2 ^ k → bit_or (q * 2 ^ k) r ≡ q * 2 ^ k + r
bit_or_disjoint zero q r fits = ground (arith, bit_or-zero q)
bit_or_disjoint (suc k) q r fits =
    let (pow, prod, one) = double k q in
    let ih = bit_or_disjoint k q (r / 2) (omega arith) in
    ground (arith, bit_or_step (q * 2 ^ suc k) r, pow, prod, ih)

-- `a & (2 ^ k - 1)` is the lowest `k` digits of `a`.
mask_split : (k a q r : ℕ) → a ≡ q * 2 ^ k + r → r < 2 ^ k → bit_and a (2 ^ k - 1) ≡ r
mask_split zero a q r e fits = rw (bit_and-zero a) (omega arith)
mask_split (suc k) a q r e fits =
    let (pow, prod, one) = double k q in
    let ih = mask_split k (a / 2) q (r / 2) (omega arith) (omega arith) in
    ground (arith, bit_and_step a (2 ^ suc k - 1), pow, prod, one, ih)

pub bit_and_mask : (k a : ℕ) → bit_and a (2 ^ k - 1) ≡ a % 2 ^ k
bit_and_mask k a =
    let (_, _, one) = double k 0 in
    mask_split k a (a / 2 ^ k) (a % 2 ^ k) (omega arith) (omega arith)
