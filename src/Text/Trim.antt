-- ===== src/Text/Trim.antt =====
-- c/src/string/str_trim.c. The mask of 256 flags is a function of the byte; a string is the list
-- of its `str_len` bytes, and the lengths are far below 2 ^ 31.
pub mod Mask
pub mod Ends
pub mod Into
mod Tests
use code_notebook.Base.{
  ℕ, zero, suc, ◌+◌, ◌-◌, Bool, true, false, ◌&&◌, ◌||◌, List, [], ◌∷◌, Option, none, some, ltb,
  leb, ◌==◌, if◌then◌else◌, length, get_or, set, take, drop,
}

abbrev pub Mask : Type 0
Mask = ℕ → Bool

abbrev pub dot : ℕ
dot = b'.'

-- memset(mask, 0, 256)
abbrev pub no_bytes : Mask
no_bytes c = false

-- memset(mask + from, 1, to - from + 1), and mask[c] = 1
pub mark : ℕ → ℕ → Mask → Mask
mark from to mask c = if leb from c && leb c to then true else mask c

-- The tests on `input[1]`, `input[2]` and `input[3]`, which must stand before `end`.
pub is_range : ℕ → List ℕ → Bool
is_range c (d1 ∷ d2 ∷ e ∷ rest) = d1 == dot && d2 == dot && leb c e
is_range c rest = false

pub is_bad_range : ℕ → List ℕ → Bool
is_bad_range c (d ∷ rest) = c == dot && d == dot
is_bad_range c [] = false

-- char_mask: the result, and the mask. A misplaced ".." marks nothing, whichever of the four
-- messages it would deserve.
pub char_mask : List ℕ → ℕ → Mask → ℕ × Mask
char_mask [] result mask = (result, mask)
char_mask (c ∷ []) result mask = char_mask [] result (mark c c mask)
char_mask (c ∷ d ∷ []) result mask =
    if is_bad_range c (d ∷ [])
    then char_mask (d ∷ []) 1 mask
    else char_mask (d ∷ []) result (mark c c mask)
char_mask (c ∷ d ∷ d2 ∷ []) result mask = elim (is_bad_range c (d ∷ d2 ∷ [])) [
  | true ↦ char_mask (d ∷ d2 ∷ []) 1 mask
  | false ↦ char_mask (d ∷ d2 ∷ []) result (mark c c mask)
]
char_mask (c ∷ d1 ∷ d2 ∷ e ∷ rest) result mask = elim (is_range c (d1 ∷ d2 ∷ e ∷ rest)) [
  | true ↦ char_mask rest result (mark c e mask)
  | false ↦ elim (is_bad_range c (d1 ∷ d2 ∷ e ∷ rest)) [
    | true ↦ char_mask (d1 ∷ d2 ∷ e ∷ rest) 1 mask
    | false ↦ char_mask (d1 ∷ d2 ∷ e ∷ rest) result (mark c c mask)
  ]
]

-- " \n\r\t\v\0"
abbrev pub default_what : List ℕ
default_what = 32 ∷ 10 ∷ 13 ∷ 9 ∷ 11 ∷ 0 ∷ []

pub mask_of : Option (List ℕ) → Mask
mask_of none = (char_mask default_what 0 no_bytes).1
mask_of (some what) = (char_mask what 0 no_bytes).1

-- the loop from the left
pub leading : Mask → List ℕ → ℕ
leading mask [] = 0
leading mask (c ∷ str) = let more = leading mask str in if mask c then suc more else 0

-- the loop from the right: the length that is left of `len` bytes
pub trailing : Mask → List ℕ → ℕ → ℕ
trailing mask str zero = 0
trailing mask str (suc i) =
    let less = trailing mask str i in if mask (get_or str i 0) then less else suc i

-- _s_trim with the bits of `mode` apart: what is skipped, and the length that is left
pub s_trim : List ℕ → Option (List ℕ) → Bool → Bool → ℕ × ℕ
s_trim str what left right =
    let mask = mask_of what in
    let trimmed = if left then leading mask str else 0 in
    let rest = drop trimmed str in
    let len = length str - trimmed in (trimmed, if right then trailing mask rest len else len)

-- What a C string of at most `n` bytes holds, as strndup reads it.
pub up_to_zero : ℕ → List ℕ → List ℕ
up_to_zero zero s = []
up_to_zero (suc n) [] = []
up_to_zero (suc n) (c ∷ s) = let rest = up_to_zero n s in if c == 0 then [] else c ∷ rest

-- str_ltrim_alloc, str_rtrim_alloc and str_trim_alloc; `room` says whether strndup gets memory
pub trim_alloc : Bool → List ℕ → Option (List ℕ) → Bool → Bool → Option (List ℕ)
trim_alloc room str what left right =
    let (trimmed, len) = s_trim str what left right in
    if room then some (up_to_zero len (drop trimmed str)) else none
