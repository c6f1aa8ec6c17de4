-- ===== src/Text/Trim/Tests.antt =====
-- Trimming concrete strings.
use code_notebook.Base.{ℕ, ◌≡◌, ◌<◌, ◌≤◌, length, refl, true, List, [], ◌∷◌, none, some}
use code_notebook.Text.Trim.{
  mask_of, char_mask, no_bytes, s_trim, trim_alloc, leading, trailing, up_to_zero, mark, is_range,
  is_bad_range,
}
use code_notebook.Run.{ok, fault}
use code_notebook.Text.Trim.Into.{trim_into, trim_into-trim_alloc}
use code_notebook.Text.Trim.Mask.{Item, single, range}
use code_notebook.Text.Trim.Ends.{Trimmed, trim_alloc-Trimmed}

-- " ab "
abbrev padded : List ℕ
padded = 32 ∷ b'a' ∷ b'b' ∷ 32 ∷ []

cut : trim_alloc true padded none true true ≡ some (b'a' ∷ b'b' ∷ [])
unfolding trim_alloc s_trim mask_of char_mask leading trailing up_to_zero mark is_range is_bad_range
cut = refl

-- "a..c-" names a, b, c and the dash; ".." alone is a complaint that names nothing but a dot.
abbrev items : List Item
items = range b'a' b'c' ∷ single b'-' ∷ []

complaint : (char_mask (46 ∷ 46 ∷ []) 0 no_bytes).0 ≡ 1
unfolding char_mask is_bad_range
complaint = refl

trim_alloc-Trimmed_example :
    (t l : ℕ) × (parts : Trimmed (mask_of none) true true padded t l) × (trim_alloc true padded none
        true true
      ≡ some parts.kept)
trim_alloc-Trimmed_example =
    trim_alloc-Trimmed padded none true true (refl, (refl, (refl, (refl, tt))))

-- A buffer of three bytes holds the two that are left.
trim_into-trim_alloc_example :
    ((s_trim padded none true true).1 < 3
      → (block' : List ℕ) × (trim_into (1 ∷ 1 ∷ 1 ∷ []) padded none true true ≡ ok block')
        × (length block' ≡ 3)
        × (trim_alloc true padded none true true ≡ some (up_to_zero 3 block')))
    × (3 ≤ (s_trim padded none true true).1
        → trim_into (1 ∷ 1 ∷ 1 ∷ []) padded none true true ≡ fault)
trim_into-trim_alloc_example = trim_into-trim_alloc (1 ∷ 1 ∷ 1 ∷ []) padded none true true
