-- ===== src/Codec/Base64/Junk.antt =====
-- Bytes that are no letter and no pad do not count.
use code_notebook.Base.{
  ℕ, suc, ◌-◌, ◌≡◌, refl, Bool, true, false, ◌||◌, List, [], ◌∷◌, ◌++◌, ◌==◌, if◌then◌else◌, length,
  arith, Bool-cases, inl, inr,
}
use code_notebook.Codec.Base64.{
  Entry, bad, space, digit, base64_pad, State, reverse, take_digit, decode_loop, decode,
}

has_value : Entry → Bool
has_value (digit v) = true
has_value bad = false
has_value space = false

unfoldable pub significant : ℕ → Bool
unfolding has_value
significant x = x == base64_pad || has_value (reverse x)

pub keep : List ℕ → List ℕ
keep [] = []
keep (x ∷ xs) = if significant x then x ∷ keep xs else keep xs

abbrev pub NoZero : List ℕ → Type 0
NoZero [] = Unit {0}
NoZero (x ∷ xs) = ((x == 0) ≡ false) × NoZero xs

take_digit-no_value : (e : Entry) (s : State) → has_value e ≡ false → take_digit e s ≡ s
unfolding take_digit has_value
take_digit-no_value (digit v) s h = ground arith
take_digit-no_value bad s h = refl
take_digit-no_value space s h = refl

skip_junk :
    (x : ℕ) (current : List ℕ) (n : ℕ) (s : State)
    → (x == 0) ≡ false
    → significant x ≡ false
    → decode_loop (x ∷ current) (suc n) s ≡ decode_loop current n s
unfolding decode_loop
skip_junk x current n s nonzero junk =
    let one : suc n - 1 ≡ n = omega arith in
    let left : (suc n == 0) ≡ false = ground arith in
    let no_pad : (x == base64_pad) ≡ false = unfold significant in ground arith in
    let no_value : has_value (reverse x) ≡ false = unfold significant in ground arith in
    rw (no_pad, nonzero, left, take_digit-no_value (reverse x) s no_value, one)

decode_loop-keep :
    (xs rest : List ℕ) (s : State)
    → NoZero xs
    → decode_loop (xs ++ 0 ∷ rest) (length xs) s
      ≡ decode_loop (keep xs ++ 0 ∷ rest) (length (keep xs)) s
unfolding keep
decode_loop-keep [] rest s h = refl
decode_loop-keep (x ∷ xs) rest s (nonzero, h) = elim (Bool-cases (significant x)) [
  | inr junk ↦
      rw (skip_junk x (xs ++ 0 ∷ rest) (length xs) s nonzero junk, junk)
        (decode_loop-keep xs rest s h)
  | inl kept ↦ rw kept (one_more (λ t. decode_loop-keep xs rest t h))
]
  where
    one_more :
        ((t : State)
          → decode_loop (xs ++ 0 ∷ rest) (length xs) t
            ≡ decode_loop (keep xs ++ 0 ∷ rest) (length (keep xs)) t)
        → decode_loop (x ∷ xs ++ 0 ∷ rest) (suc (length xs)) s
          ≡ decode_loop (x ∷ keep xs ++ 0 ∷ rest) (suc (length (keep xs))) s
    one_more same =
        let one : suc (length xs) - 1 ≡ length xs = omega arith in
        let one' : suc (length (keep xs)) - 1 ≡ length (keep xs) = omega arith in
        unfold decode_loop in rw (one, one', same) (ground arith)

-- Decoding a text without zeros is decoding its letters and pads alone: spaces, line breaks and
-- every other byte between them are skipped.
pub decode-keep :
    (room : Bool) (xs rest : List ℕ)
    → NoZero xs
    → decode room (xs ++ 0 ∷ rest) (length xs)
      ≡ decode room (keep xs ++ 0 ∷ rest) (length (keep xs))
unfolding decode
decode-keep true xs rest h = decode_loop-keep xs rest _ h
decode-keep false xs rest h = refl
