-- ===== src/Tgrep/Months.antt =====
-- The name of a month and its number.
use code_notebook.Base.{
  ℕ, ◌-◌, ◌≤◌, ◌<◌, ◌≡◌, refl, ap, ◌∙◌, Bool, true, false, ◌||◌, Option, none, some, arith, ◌==◌,
  length, take,
}
use code_notebook.Base.Bits.{holds_below, holds_below_at}
use code_notebook.Base.Slices.{take-all}
use code_notebook.Tgrep.{month_name, conv_month_2_string, lower, same_letters, conv_month_2_int}

is_number : ℕ → Option ℕ → Bool
is_number m none = false
is_number m (some k) = k == m

is_none : Option ℕ → Bool
is_none none = true
is_none (some k) = false

number_lem : (m : ℕ) (o : Option ℕ) → is_number m o ≡ true → o ≡ some m
unfolding is_number
number_lem m none h = absurd (cc (h))
number_lem m (some k) h = ap some (ground (arith, h))

none_lem : (o : Option ℕ) → is_none o ≡ true → o ≡ none
unfolding is_none
none_lem none h = refl
none_lem (some k) h = absurd (cc (h))

-- Each of the twelve names, whole and cut after no, one or two letters.
whole_names : holds_below 13 (λ m. m == 0 || is_number m (conv_month_2_int (month_name m))) ≡ true
unfolding holds_below is_number conv_month_2_int same_letters lower month_name
whole_names = refl

cut_names :
    holds_below 13
      (λ m. m == 0 || holds_below 3 (λ n. is_none (conv_month_2_int (take n (month_name m)))))
    ≡ true
unfolding holds_below is_none conv_month_2_int same_letters lower month_name
cut_names = refl

length-month_name : (m : ℕ) → length (month_name m) ≡ 3
unfolding month_name
length-month_name m = ground arith

-- conv_month_2_int gives back the number of a month whose name conv_month_2_string has put into a
-- buffer of at least four bytes. From a smaller buffer, where the name is cut, it returns -1.
pub conv_month_2_int-conv_month_2_string :
    (month size : ℕ)
    → 0 < month
    → month ≤ 12
    → 0 < size
    → (4 ≤ size → conv_month_2_int (conv_month_2_string month size).0 ≡ some month)
      × (size < 4 → conv_month_2_int (conv_month_2_string month size).0 ≡ none)
unfolding conv_month_2_string
conv_month_2_int-conv_month_2_string month size low high some_byte =
    let not_zero : (month == 0) ≡ false = ground (arith, low) in
    let whole =
      holds_below_at (λ m. m == 0 || is_number m (conv_month_2_int (month_name m))) 13 month
        (omega arith) whole_names in
    let cut =
      holds_below_at
        (λ m. m == 0 || holds_below 3 (λ n. is_none (conv_month_2_int (take n (month_name m))))) 13
        month (omega arith) cut_names in
    (
      λ enough.
          ap conv_month_2_int
            (take-all (size - 1) (month_name month) (omega (arith, length-month_name month)))
          ∙ number_lem month _ (rw not_zero at whole),
      λ short. none_lem _ (
          holds_below_at (λ n. is_none (conv_month_2_int (take n (month_name month)))) 3 (size - 1)
            (omega arith) (rw not_zero at cut)),
    )
