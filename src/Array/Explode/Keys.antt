-- ===== src/Array/Explode/Keys.antt =====
-- The indices that array_explode_alloc of c/src/array/array.c prints are different keys.
use code_notebook.Base.{
  ℕ, zero, suc, ◌+◌, ◌*◌, ◌-◌, ◌/◌, ◌%◌, ◌≤◌, ◌<◌, ◌≡◌, refl, sym, ap, ◌∙◌, inl, inr, [], ◌∷◌, ◌++◌,
  arith, ltb, Bool-cases,
}
use code_notebook.Array.{Bytes}
use code_notebook.Array.Explode.{digits, decimal}

-- The number that digits stand for, behind a number.
abbrev value : ℕ → Bytes → ℕ
value acc [] = acc
value acc (d ∷ ds) = value (acc * 10 + (d - b'0')) ds

value-snoc :
    (acc : ℕ) (ds : Bytes) (d : ℕ) → value acc (ds ++ d ∷ []) ≡ value acc ds * 10 + (d - b'0')
value-snoc acc [] d = refl
value-snoc acc (e ∷ ds) d = value-snoc (acc * 10 + (e - b'0')) ds d

value-digits : (fuel n : ℕ) → n < fuel → value 0 (digits fuel n) ≡ n
unfolding digits
value-digits zero n h = absurd (omega arith)
value-digits (suc fuel) n h = elim (Bool-cases (ltb n 10)) [
  | inl small ↦ rw (digits, small) (omega arith)
  | inr big ↦
      let ten : 10 ≤ n = ground arith in
      rw
        (
          digits,
          big,
          value-snoc 0 (digits fuel (n / 10)) (b'0' + n % 10),
          value-digits fuel (n / 10) (omega arith),
        )
        (omega arith)
]

pub decimal_injective : (i j : ℕ) → decimal i ≡ decimal j → i ≡ j
unfolding decimal
decimal_injective i j e =
    sym (value-digits (suc i) i (omega arith))
    ∙ ap (value 0) e
    ∙ value-digits (suc j) j (omega arith)
