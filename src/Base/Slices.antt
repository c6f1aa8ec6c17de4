-- ===== src/Base/Slices.antt =====
-- Beginnings and ends of lists.
use Prim.Native.Nat.{ℕ, zero, suc, ◌+◌, ◌-◌, ◌≤◌}
use mathlib.Core.Path.{◌≡◌, refl, sym, ap, ◌∙◌}
use mathlib.Core.List.{List, [], ◌∷◌, ◌++◌}
use native.Mathlib.Omega.{arith}
use code_notebook.Base.Lists.{length, take, drop}

module _ {ℓ} {A : Type ℓ} where
  pub take-append : (n : ℕ) (a b : List A) → take n (a ++ b) ≡ take n a ++ take (n - length a) b
  take-append zero a b = let e : 0 - length a ≡ 0 = omega arith in rw e refl
  take-append (suc n) [] b = let e : suc n - 0 ≡ suc n = omega arith in rw e refl
  take-append (suc n) (x ∷ a) b =
      let e : suc n - suc (length a) ≡ n - length a = omega arith in
      rw e (ap (◌∷◌ x) (take-append n a b))

  pub drop-append : (n : ℕ) (a b : List A) → drop n (a ++ b) ≡ drop n a ++ drop (n - length a) b
  drop-append zero a b = let e : 0 - length a ≡ 0 = omega arith in rw e refl
  drop-append (suc n) [] b = let e : suc n - 0 ≡ suc n = omega arith in rw e refl
  drop-append (suc n) (x ∷ a) b =
      let e : suc n - suc (length a) ≡ n - length a = omega arith in rw e (drop-append n a b)

  pub drop-nil : (n : ℕ) → drop {A = A} n [] ≡ []
  drop-nil zero = refl
  drop-nil (suc n) = refl

  pub take-nil : (n : ℕ) → take {A = A} n [] ≡ []
  take-nil zero = refl
  take-nil (suc n) = refl

  pub drop-drop : (n m : ℕ) (a : List A) → drop (n + m) a ≡ drop m (drop n a)
  drop-drop zero m a = let e : 0 + m ≡ m = omega arith in rw e refl
  drop-drop (suc n) m [] = drop-nil (suc n + m) ∙ sym (drop-nil m)
  drop-drop (suc n) m (x ∷ a) =
      let e : suc n + m ≡ suc (n + m) = omega arith in rw e (drop-drop n m a)

  pub drop-all : (k : ℕ) (a : List A) → length a ≤ k → drop k a ≡ []
  drop-all zero [] h = refl
  drop-all zero (x ∷ a) h = absurd (omega arith)
  drop-all (suc k) [] h = refl
  drop-all (suc k) (x ∷ a) h = drop-all k a (omega arith)

  pub take-all : (n : ℕ) (a : List A) → length a ≤ n → take n a ≡ a
  take-all zero [] h = refl
  take-all zero (x ∷ a) h = absurd (omega arith)
  take-all (suc n) [] h = refl
  take-all (suc n) (x ∷ a) h = ap (◌∷◌ x) (take-all n a (omega arith))
