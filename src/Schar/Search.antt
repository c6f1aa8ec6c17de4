-- ===== src/Schar/Search.antt =====
-- The searches of c/src/schar/schar.c. A pointer into the text is its offset, and the bytes from
-- it to `end` are a list. `needle` and `substr` are the bytes that their length counts, and `behind`
-- are those of the block of `substr` after them, where strdup looks for the zero. A place is returned
-- as an `int`, of which the model has the 32 bits.
pub mod First
pub mod Place
use code_notebook.Base.{
  ℕ, zero, suc, ◌+◌, ◌-◌, ◌%◌, ◌^◌, Bool, true, false, not, ◌&&◌, List, [], ◌∷◌, ◌++◌, Option, none,
  some, ltb, ◌==◌, if◌then◌else◌, length, get_or, take, drop, map,
}
use code_notebook.Run.{Run, ok, fault, out_of_fuel, ◌>>=◌}
use code_notebook.Text.Slashes.{tolower}
use code_notebook.Text.Trim.{up_to_zero}
use code_notebook.Schar.{Schar}

-- memchr: the offset of the first `c` among `n` bytes
pub memchr : ℕ → List ℕ → ℕ → Option ℕ
memchr c text zero = none
memchr c [] (suc n) = none
memchr c (b ∷ text) (suc n) =
    let later = memchr c text n in
    if b == c then some 0 else elim later [ none ↦ none | some i ↦ some (suc i) ]

-- !memcmp(needle, p, length of needle)
pub is_prefix : List ℕ → List ℕ → Bool
is_prefix [] text = true
is_prefix (c ∷ needle) [] = false
is_prefix (c ∷ needle) (b ∷ text) = b == c && is_prefix needle text

-- An offset from a later start.
pub shift : ℕ → Option ℕ → Option ℕ
shift k none = none
shift k (some i) = some (k + i)

-- the body of the loop of _schar_memnstr behind the memchr; `again` is the loop
pub compare_at : (List ℕ → Run (Option ℕ)) → List ℕ → List ℕ → Option ℕ → Run (Option ℕ)
compare_at again text needle none = ok none
compare_at again text needle (some i) =
    let n = length needle in
    let p = drop i text in
    let next = again (drop (i + 1) text) >>= λ found. ok (shift (i + 1) found) in
    if get_or p (n - 1) 0 == get_or needle (n - 1) 0 && is_prefix (take (n - 1) needle) p
    then ok (some i)
    else next

-- the loop, with one unit of fuel for each turn
pub memnstr_loop : ℕ → List ℕ → List ℕ → Run (Option ℕ)
memnstr_loop zero text needle = out_of_fuel
memnstr_loop (suc fuel) text needle =
    let n = length needle in
    let turn =
      compare_at (λ later. memnstr_loop fuel later needle) text needle
        (memchr (get_or needle 0 0) text (length text - n + 1)) in
    if ltb (length text) n then ok none else turn

-- _schar_memnstr; an empty needle makes it read in front of the needle
pub memnstr : List ℕ → List ℕ → Run (Option ℕ)
unfolding memnstr_loop memchr
memnstr text [] = fault
memnstr text (c ∷ []) = ok (memchr c text (length text))
memnstr text (c ∷ d ∷ needle) = memnstr_loop (length text + 1) text (c ∷ d ∷ needle)

-- The bytes of dest from `offset` to its length are searched, and a place counts from its start.
pub search_from : List ℕ → ℕ → ℕ → List ℕ → Run (Option ℕ)
search_from b len offset substr =
    memnstr (drop offset (take len b)) substr >>= λ i. ok (shift offset i)

-- SCHAR_NOTFOUND is -1
abbrev pub returned : Option ℕ → ℕ
returned none = 2 ^ 32 - 1
returned (some i) = i % 2 ^ 32

-- schar_strpos; `substr` is its substr_len bytes
pub strpos : Schar → List ℕ → ℕ → Run ℕ
unfolding search_from
strpos dest substr offset =
    let search : Run ℕ = elim dest.s [
      | none ↦ fault
      | some b ↦ search_from b dest.len offset substr >>= λ found. ok (returned found)
    ] in
    if ltb dest.len offset then ok (returned none) else search

-- strdup of a block, with its zero, and _schar_strtolower of the first `len` bytes; the answer
-- `none` is that strdup has no memory
pub lower_copy : Bool → List ℕ → ℕ → Run (Option (List ℕ))
lower_copy room b len =
    let s = up_to_zero (length b) b in
    let dup = s ++ 0 ∷ [] in
    let lowered =
      if ltb (length dup) len
      then fault
      else ok (some (map tolower (take len dup) ++ drop len dup)) in
    if length s == length b then fault else if room then lowered else ok none

-- The search in lower case.
pub search_lowered : Bool → Bool → List ℕ → ℕ → ℕ → List ℕ → List ℕ → Run (Option ℕ)
search_lowered room1 room2 b len offset substr behind = do
  hay ← lower_copy room1 b len
  needle ← lower_copy room2 (substr ++ behind) (length substr)
  elim hay [
    | none ↦ ok none
    | some h ↦ elim needle [
      | none ↦ ok none
      | some n ↦ search_from h len offset (take (length substr) n)
    ]
  ]

-- schar_stripos
pub stripos : Bool → Bool → Schar → List ℕ → List ℕ → ℕ → Run ℕ
stripos room1 room2 dest substr behind offset =
    let search : Run ℕ = elim dest.s [
      | none ↦ fault
      | some b ↦ search_lowered room1 room2 b dest.len offset substr behind >>= λ found.
          ok (returned found)
    ] in
    if ltb dest.len offset then ok (returned none) else search

-- The text that the last two searches return: a C string, without its zero. `block` is that of
-- `substr`, and `room` is the answer of the allocation.
pub text_at : Bool → List ℕ → List ℕ → Bool → Option ℕ → Run (Option (List ℕ))
text_at room b block before_substr none = ok none
text_at room b block before_substr (some found) =
    let copied = up_to_zero (length block) block in
    let text = if before_substr then take found b else copied in
    if not before_substr && length copied == length block
    then fault
    else ok (if room then some text else none)

-- schar_strstr_alloc
pub strstr_alloc : Bool → Schar → List ℕ → List ℕ → ℕ → Bool → Run (Option (List ℕ))
strstr_alloc room dest substr behind offset before_substr =
    let search : Run (Option (List ℕ)) = elim dest.s [
      | none ↦ fault
      | some b ↦ search_from b dest.len offset substr >>= λ found.
          text_at room b (substr ++ behind) before_substr found
    ] in
    if ltb dest.len offset then ok none else search

-- schar_stristr_alloc
pub stristr_alloc : Bool → Bool → Bool → Schar → List ℕ → List ℕ → ℕ → Bool → Run (Option (List ℕ))
stristr_alloc room1 room2 room dest substr behind offset before_substr =
    let search : Run (Option (List ℕ)) = elim dest.s [
      | none ↦ fault
      | some b ↦ search_lowered room1 room2 b dest.len offset substr behind >>= λ found.
          text_at room b (substr ++ behind) before_substr found
    ] in
    if ltb dest.len offset then ok none else search
