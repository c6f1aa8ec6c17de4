-- ===== src/Schar/Search/Place.antt =====
-- schar_strpos and schar_strstr_alloc answer by the first place.
use code_notebook.Base.{
  ℕ, ◌+◌, ◌-◌, ◌^◌, ◌≤◌, ◌<◌, ◌≡◌, refl, ap, Bool, true, false, List, ◌∷◌, ◌++◌, ◌==◌, arith,
  length-append, length-drop, length-take, Option, none, some, ltb, if◌then◌else◌, length, take,
  drop, Bool-cases, inl, inr,
}
use code_notebook.Run.{ok}
use code_notebook.Schar.Search.{shift, returned, search_from, strpos, text_at, strstr_alloc}
use code_notebook.Schar.{Schar}
use code_notebook.Schar.Grow.{content}
use code_notebook.Text.Trim.Ends.{NoZero, up_to_zero-ends}
use code_notebook.Schar.Search.First.{
  Below, shift-Below, Below-weaken, first_match-Below, first_match, memnstr-first_match,
}

search_from-first_match :
    (b : List ℕ) (len offset : ℕ) (substr : List ℕ)
    → 0 < length substr
    → search_from b len offset substr
      ≡ ok (shift offset (first_match substr (drop offset (take len b))))
unfolding search_from
search_from-first_match b len offset substr h =
    rw (memnstr-first_match (drop offset (take len b)) substr h) refl

-- What schar_strpos and schar_strstr_alloc answer, by the definition of a first place.
pub place_of : Schar → List ℕ → ℕ → Option ℕ
place_of x substr offset =
    if ltb x.len offset then none else shift offset (first_match substr (drop offset (content x)))

-- A place in a text of fewer than 2 ^ 31 bytes is a positive `int`.
returned_lem :
    (o : Option ℕ) → Below (2 ^ 31) o → returned o ≡ elim o [ none ↦ 2 ^ 32 - 1 | some i ↦ i ]
returned_lem none h = refl
returned_lem (some i) h = omega arith

place-Below :
    (b : List ℕ) (len offset : ℕ) (substr : List ℕ)
    → len < 2 ^ 31
    → ltb len offset ≡ false
    → Below (2 ^ 31) (shift offset (first_match substr (drop offset (take len b))))
place-Below b len offset substr small inside =
    let seen = drop offset (take len b) in
    let start : offset ≤ len = ground arith in
    Below-weaken (offset + length seen) (2 ^ 31) (shift offset (first_match substr seen))
      (omega (arith, length-drop offset (take len b), length-take len b))
      (shift-Below offset (length seen) (first_match substr seen) (first_match-Below substr seen))

text_at-copied :
    (b text rest : List ℕ) (before_substr : Bool) (o : Option ℕ)
    → NoZero text
    → text_at true b (text ++ 0 ∷ rest) before_substr o
      ≡ ok (elim o [ none ↦ none | some i ↦ some (if before_substr then take i b else text) ])
unfolding text_at
text_at-copied b text rest before_substr none h = refl
text_at-copied b text rest true (some i) h = refl
text_at-copied b text rest false (some i) h =
    let total = length-append text (0 ∷ rest) in
    let copied = up_to_zero-ends (length (text ++ 0 ∷ rest)) text rest h (omega arith) in
    let ended : (length text == length (text ++ 0 ∷ rest)) ≡ false = ground arith in
    rw (copied, ended) refl

-- On a string of fewer than 2 ^ 31 bytes in its block and a part that is not empty, schar_strpos
-- gives the first place from `offset` on at which the part stands, counted from the start, or -1 if
-- there is none or `offset` lies behind the end. With memory schar_strstr_alloc returns what stands
-- before that place, or a copy of the block of the part up to its zero, whatever the length of the
-- part, and NULL if there is no such place.
pub strpos-place_of :
    (b : List ℕ) (len size offset : ℕ) (substr behind text rest : List ℕ)
    → 0 < length substr
    → len ≤ length b
    → len < 2 ^ 31
    → substr ++ behind ≡ text ++ 0 ∷ rest
    → NoZero text
    → (strpos (record { s = some b; len = len; size = size }) substr offset
        ≡ ok (elim (place_of (record { s = some b; len = len; size = size }) substr offset) [
          | none ↦ 2 ^ 32 - 1
          | some i ↦ i
        ]))
      × ((before_substr : Bool)
          → strstr_alloc true
              (record { s = some b; len = len; size = size })
              substr
              behind
              offset
              before_substr
            ≡ ok (elim (place_of (record { s = some b; len = len; size = size }) substr offset) [
              | none ↦ none
              | some i ↦ some (if before_substr then take i b else text)
            ]))
unfolding strpos strstr_alloc place_of
strpos-place_of b len size offset substr behind text rest h whole small ended no_zero =
    let found = search_from-first_match b len offset substr h in
    elim (Bool-cases (ltb len offset)) [
      | inl after ↦ (rw after refl, λ before_substr. rw after refl)
      | inr inside ↦ (
        rw (inside, found) (ap ok (returned_lem _ (place-Below b len offset substr small inside))),
        λ before_substr.
            rw (inside, found, ended) (text_at-copied b text rest before_substr _ no_zero),
      )
    ]
