-- ===== src/Tgrep.antt =====
-- c/app/tgrep/utils.c: the names of the months. A C string is the list of its bytes without the
-- zero. kscal prints floating point numbers and is not modelled.
pub mod Months
pub mod Search
pub mod Times
pub mod Position
mod Tests
use code_notebook.Base.{
  ℕ, zero, suc, ◌+◌, ◌-◌, Bool, true, false, ◌&&◌, List, [], ◌∷◌, Option, none, some, leb, ◌==◌,
  if◌then◌else◌, take,
}

-- The C string that snprintf(str, str_size, "...") leaves of a text in a buffer of `size` bytes.
abbrev pub printed : ℕ → List ℕ → List ℕ
printed size text = take (size - 1) text

pub month_name : ℕ → List ℕ
month_name month =
    if month == 1
    then b'J' ∷ b'a' ∷ b'n' ∷ []
    else if month == 2
    then b'F' ∷ b'e' ∷ b'b' ∷ []
    else if month == 3
    then b'M' ∷ b'a' ∷ b'r' ∷ []
    else if month == 4
    then b'A' ∷ b'p' ∷ b'r' ∷ []
    else if month == 5
    then b'M' ∷ b'a' ∷ b'y' ∷ []
    else if month == 6
    then b'J' ∷ b'u' ∷ b'n' ∷ []
    else if month == 7
    then b'J' ∷ b'u' ∷ b'l' ∷ []
    else if month == 8
    then b'A' ∷ b'u' ∷ b'g' ∷ []
    else if month == 9
    then b'S' ∷ b'e' ∷ b'p' ∷ []
    else if month == 10
    then b'O' ∷ b'c' ∷ b't' ∷ []
    else if month == 11
    then b'N' ∷ b'o' ∷ b'v' ∷ []
    else if month == 12
    then b'D' ∷ b'e' ∷ b'c' ∷ []
    else b'U' ∷ b'n' ∷ b'k' ∷ []

-- conv_month_2_string into a buffer of `size` bytes, one at least: the string there, and 3
pub conv_month_2_string : ℕ → ℕ → List ℕ × ℕ
unfolding month_name
conv_month_2_string month size = (printed size (month_name month), 3)

-- A letter as strncasecmp compares it.
pub lower : ℕ → ℕ
lower c = if leb 65 c && leb c 90 then c + 32 else c

-- strncasecmp(a, b, n) == 0
pub same_letters : ℕ → List ℕ → List ℕ → Bool
same_letters zero a b = true
same_letters (suc n) [] [] = true
same_letters (suc n) [] (d ∷ b) = false
same_letters (suc n) (c ∷ a) [] = false
same_letters (suc n) (c ∷ a) (d ∷ b) = lower c == lower d && same_letters n a b

-- conv_month_2_int; `none` is -1
pub conv_month_2_int : List ℕ → Option ℕ
unfolding same_letters lower
conv_month_2_int str =
    if same_letters 3 str (b'j' ∷ b'a' ∷ b'n' ∷ [])
    then some 1
    else if same_letters 3 str (b'f' ∷ b'e' ∷ b'b' ∷ [])
    then some 2
    else if same_letters 3 str (b'm' ∷ b'a' ∷ b'r' ∷ [])
    then some 3
    else if same_letters 3 str (b'a' ∷ b'p' ∷ b'r' ∷ [])
    then some 4
    else if same_letters 3 str (b'm' ∷ b'a' ∷ b'y' ∷ [])
    then some 5
    else if same_letters 3 str (b'j' ∷ b'u' ∷ b'n' ∷ [])
    then some 6
    else if same_letters 3 str (b'j' ∷ b'u' ∷ b'l' ∷ [])
    then some 7
    else if same_letters 3 str (b'a' ∷ b'u' ∷ b'g' ∷ [])
    then some 8
    else if same_letters 3 str (b's' ∷ b'e' ∷ b'p' ∷ [])
    then some 9
    else if same_letters 3 str (b'o' ∷ b'c' ∷ b't' ∷ [])
    then some 10
    else if same_letters 3 str (b'n' ∷ b'o' ∷ b'v' ∷ [])
    then some 11
    else if same_letters 3 str (b'd' ∷ b'e' ∷ b'c' ∷ [])
    then some 12
    else none
