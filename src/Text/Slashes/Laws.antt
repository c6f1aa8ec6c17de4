-- ===== src/Text/Slashes/Laws.antt =====
-- What escaping keeps, and letter case.
use code_notebook.Base.{
  ℕ, ◌+◌, ◌≤◌, ◌≡◌, refl, Bool, true, false, ◌||◌, List, [], ◌∷◌, ◌==◌, if◌then◌else◌, length,
  arith, Option, none, some, Bool-cases, inl, inr,
}
use code_notebook.Text.Slashes.{
  backslash, needs_slash, addslashes, toupper, tolower, str_toupper, str_tolower,
}

-- The bytes that may not stand alone in escaped text: the zero, both quotes and the backslash.
abbrev pub is_bare : ℕ → Bool
is_bare c = c == 0 || c == 39 || c == 34 || c == 92

-- The reader of escaped text: a backslash hides the byte behind it, a hidden '0' is a zero, and
-- text that ends inside an escape or holds a bare quote or zero is refused.
pub unslash : List ℕ → Option (List ℕ)
unslash [] = some []
unslash (c ∷ []) = if is_bare c then none else some (c ∷ [])
unslash (c ∷ d ∷ rest) = elim (c == 92) [
  | true ↦ elim (unslash rest) [
    | none ↦ none
    | some text ↦ some ((if d == b'0' then 0 else d) ∷ text)
  ]
  | false ↦ elim (unslash (d ∷ rest)) [
    | none ↦ none
    | some text ↦ if is_bare c then none else some (c ∷ text)
  ]
]

unslash-plain :
    (c : ℕ) (rest text : List ℕ)
    → (c == 0) ≡ false
    → needs_slash c ≡ false
    → unslash rest ≡ some text
    → unslash (c ∷ rest) ≡ some (c ∷ text)
unfolding unslash needs_slash
unslash-plain c [] text h q e = ground arith
unslash-plain c (d ∷ rest) text h q e = ground arith

unslash-escaped :
    (d : ℕ) (rest text : List ℕ)
    → unslash rest ≡ some text
    → unslash (backslash ∷ d ∷ rest) ≡ some ((if d == b'0' then 0 else d) ∷ text)
unfolding unslash
unslash-escaped d rest text e = rw e

-- Reading an escaped string gives the string back, whatever bytes it holds. The reader takes the
-- byte behind a backslash, a '0' there for a zero, and refuses a zero or a quote without one.
pub unslash-addslashes : (s : List ℕ) → unslash (addslashes s) ≡ some s
unfolding addslashes
unslash-addslashes [] = unfold unslash in refl
unslash-addslashes (c ∷ s) = elim (Bool-cases (c == 0)) [
  | inl zero_byte ↦
      let e : c ≡ 0 = ground arith in
      rw (zero_byte, unslash-escaped b'0' (addslashes s) s (unslash-addslashes s), e)
  | inr other ↦ elim (Bool-cases (needs_slash c)) [
    | inl quote ↦
        let e : (c == b'0') ≡ false = unfold needs_slash in ground arith in
        rw (other, quote, unslash-escaped c (addslashes s) s (unslash-addslashes s), e)
    | inr plain ↦
        rw (other, plain) (unslash-plain c (addslashes s) s other plain (unslash-addslashes s))
  ]
]

abbrev pub special : ℕ → Bool
special c = c == 0 || needs_slash c

pub count_special : List ℕ → ℕ
count_special [] = 0
count_special (c ∷ s) = (if special c then 1 else 0) + count_special s

-- The escaped string has one byte more for each zero, quote and backslash, so that with the final
-- zero it takes the length plus their number plus one.
pub length-addslashes : (s : List ℕ) → length (addslashes s) ≡ length s + count_special s
unfolding addslashes count_special
length-addslashes [] = omega arith
length-addslashes (c ∷ s) = ground (arith, length-addslashes s)

pub count_special_le : (s : List ℕ) → count_special s ≤ length s
unfolding count_special
count_special_le [] = omega arith
count_special_le (c ∷ s) = ground (arith, count_special_le s)

case_letter : (c : ℕ) → (tolower (toupper c) ≡ tolower c) × (toupper (tolower c) ≡ toupper c)
unfolding toupper tolower
case_letter c = ground arith

-- Changing the case of a string forgets its case before, in both directions.
pub str_tolower-str_toupper :
    (s : List ℕ)
    → (str_tolower (str_toupper s) ≡ str_tolower s) × (str_toupper (str_tolower s) ≡ str_toupper s)
unfolding str_tolower str_toupper
str_tolower-str_toupper [] = (refl, refl)
str_tolower-str_toupper (c ∷ s) =
    let (down, up) = str_tolower-str_toupper s in
    let (low, high) = case_letter c in (rw (low, down), rw (high, up))
