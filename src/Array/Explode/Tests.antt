-- ===== src/Array/Explode/Tests.antt =====
-- Two words between blanks.
use code_notebook.Base.{◌≡◌, refl, true, [], ◌∷◌, some, arith}
use code_notebook.Run.{ok}
use code_notebook.Array.{Array, Bytes}
use code_notebook.Array.Writes.{enough}
use code_notebook.Array.Explode.{array_explode_alloc, tokens, decimal, digits}
use code_notebook.Array.Explode.Tokens.{Holds, array_explode_alloc-Exploded}

abbrev blank : Bytes
blank = b' ' ∷ []

abbrev words : Bytes
words = b' ' ∷ b'o' ∷ b'n' ∷ b' ' ∷ b' ' ∷ b'x' ∷ []

two_words : tokens blank [] words ≡ (b'o' ∷ b'n' ∷ []) ∷ (b'x' ∷ []) ∷ []
unfolding tokens
two_words = refl

two_digits : decimal 47 ≡ b'4' ∷ b'7' ∷ []
unfolding decimal digits
two_digits = refl

array_explode_alloc-Exploded_example :
    (a : Array) × (array_explode_alloc true true (λ i. enough) blank words ≡ ok (some (some a)))
    × Holds (tokens blank [] words) a
unfolding tokens
array_explode_alloc-Exploded_example = array_explode_alloc-Exploded blank words (omega arith)
