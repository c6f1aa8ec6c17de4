-- ===== src/Text/Trim/Into.antt =====
-- The trims of c/src/string/str_trim.c into a buffer of the caller.
use code_notebook.Base.{
  ℕ, zero, suc, ◌+◌, ◌-◌, ◌≤◌, ◌<◌, ◌≡◌, ◌≢◌, refl, sym, ap, ◌∙◌, Bool, true, false, List, [], ◌∷◌,
  ◌++◌, Option, some, arith, ltb, ◌==◌, if◌then◌else◌, length, set, take, drop, length-append,
  length-drop, length-set, length-take, Bool-cases, inl, inr,
}
use code_notebook.Base.Cells.{take-take}
use code_notebook.Run.{Run, ok, fault}
use code_notebook.Text.Trim.Ends.{s_trim-Trimmed}
use code_notebook.Text.Trim.{s_trim, up_to_zero, trim_alloc}

-- snprintf(str_trimmed, str_trimmed_size, "%s", ...) of a C string without its zero, into a block
pub snprintf : List ℕ → List ℕ → List ℕ
snprintf block text =
    let out = take (length block - 1) text in
    if length block == 0 then block else out ++ 0 ∷ drop (length out + 1) block

-- str_ltrim, str_rtrim and str_trim; the block has str_trimmed_size bytes
pub trim_into : List ℕ → List ℕ → Option (List ℕ) → Bool → Bool → Run (List ℕ)
trim_into block str what left right =
    let (trimmed, len) = s_trim str what left right in
    let printed = snprintf block (up_to_zero (length str) (drop trimmed str)) in
    if ltb len (length printed) then ok (set printed len 0) else fault

NoZero : List ℕ → Type 0
NoZero [] = Unit
NoZero (c ∷ text) = (c ≢ 0) × NoZero text

up_to_zero-NoZero : (n : ℕ) (s : List ℕ) → NoZero (up_to_zero n s)
unfolding NoZero up_to_zero
up_to_zero-NoZero zero s = tt
up_to_zero-NoZero (suc n) [] = tt
up_to_zero-NoZero (suc n) (c ∷ s) = elim (Bool-cases (c == 0)) [
  | inl end ↦ rw end tt
  | inr more ↦ rw more (ground (arith, more), up_to_zero-NoZero n s)
]

take-NoZero : (n : ℕ) (text : List ℕ) → NoZero text → NoZero (take n text)
unfolding NoZero
take-NoZero zero text h = tt
take-NoZero (suc n) [] h = tt
take-NoZero (suc n) (c ∷ text) (some_byte, rest) = (some_byte, take-NoZero n text rest)

up_to_zero-take : (n m : ℕ) (s : List ℕ) → n ≤ m → up_to_zero n s ≡ take n (up_to_zero m s)
unfolding up_to_zero
up_to_zero-take zero m s h = refl
up_to_zero-take (suc n) zero s h = absurd (omega arith)
up_to_zero-take (suc n) (suc m) [] h = refl
up_to_zero-take (suc n) (suc m) (c ∷ s) h = elim (Bool-cases (c == 0)) [
  | inl end ↦ rw end refl
  | inr more ↦ rw more (ap (◌∷◌ c) (up_to_zero-take n m s (omega arith)))
]

-- A zero written into a C string cuts it off there, and behind its end it changes nothing.
up_to_zero-set :
    (text back : List ℕ) (len n : ℕ)
    → NoZero text
    → length text < n
    → up_to_zero n (set (text ++ 0 ∷ back) len 0) ≡ take len text
unfolding NoZero up_to_zero
up_to_zero-set text back len zero nonzero h = absurd (omega arith)
up_to_zero-set [] back zero (suc n) nonzero h = refl
up_to_zero-set [] back (suc len) (suc n) nonzero h = refl
up_to_zero-set (c ∷ text) back zero (suc n) nonzero h = refl
up_to_zero-set (c ∷ text) back (suc len) (suc n) (some_byte, rest) h =
    let more : (c == 0) ≡ false = ground (arith, some_byte) in
    rw more (ap (◌∷◌ c) (up_to_zero-set text back len n rest (omega arith)))

length-snprintf : (block text : List ℕ) → length (snprintf block text) ≡ length block
unfolding snprintf
length-snprintf block text = elim (Bool-cases (length block == 0)) [
  | inl empty ↦ rw empty refl
  | inr some_room ↦
      let out = take (length block - 1) text in
      rw some_room (
        ground (
          arith,
          some_room,
          length-append out (0 ∷ drop (length out + 1) block),
          length-take (length block - 1) text,
          length-drop (length out + 1) block,
        ))
]

-- What the block holds then, as a C string.
text-snprintf :
    (block text : List ℕ) (len : ℕ)
    → NoZero text
    → len < length block
    → up_to_zero (length block) (set (snprintf block text) len 0) ≡ take len text
unfolding snprintf
text-snprintf block text len nonzero inside =
    let some_room : (length block == 0) ≡ false = ground (arith, inside) in
    let out = take (length block - 1) text in
    rw some_room (
      up_to_zero-set out (drop (length out + 1) block) len (length block)
        (take-NoZero (length block - 1) text nonzero)
        (omega (arith, inside, length-take (length block - 1) text))
      ∙ take-take len (length block - 1) text (omega (arith, inside)))

s_trim-le :
    (str : List ℕ) (what : Option (List ℕ)) (left right : Bool)
    → (s_trim str what left right).1 ≤ length str
s_trim-le str what left right =
    let parts = s_trim-Trimmed str what left right in
    omega (
      arith,
      parts.size,
      ap length parts.whole,
      length-append parts.front (parts.kept ++ parts.back),
      length-append parts.kept parts.back,
    )

-- Where the trimmed length is below the size of the buffer, str_ltrim, str_rtrim and str_trim stay
-- inside it and leave there the C string that the allocating trims return. Where it is not, they
-- write outside the buffer.
pub trim_into-trim_alloc :
    (block str : List ℕ) (what : Option (List ℕ)) (left right : Bool)
    → ((s_trim str what left right).1 < length block
        → (block' : List ℕ) × (trim_into block str what left right ≡ ok block')
          × (length block' ≡ length block)
          × (trim_alloc true str what left right ≡ some (up_to_zero (length block) block')))
      × (length block ≤ (s_trim str what left right).1
          → trim_into block str what left right ≡ fault)
unfolding trim_into trim_alloc
trim_into-trim_alloc block str what left right =
    let trimmed = (s_trim str what left right).0 in
    let len = (s_trim str what left right).1 in
    let text = up_to_zero (length str) (drop trimmed str) in
    let size = length-snprintf block text in
    (
      λ inside.
          let test : ltb len (length (snprintf block text)) ≡ true = ground (arith, inside, size) in
          (
            set (snprintf block text) len 0,
            rw test refl,
            length-set (snprintf block text) len 0 ∙ size,
            ap some (
                up_to_zero-take len (length str) (drop trimmed str) (s_trim-le str what left right)
                ∙ sym (
                    text-snprintf block text len (up_to_zero-NoZero (length str) (drop trimmed str))
                      inside)),
          ),
      λ outside.
          let test : ltb len (length (snprintf block text)) ≡ false =
            ground (arith, outside, size) in
          rw test refl,
    )
