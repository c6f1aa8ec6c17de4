-- ===== src/Text/Trim/Mask.antt =====
-- Which bytes a list of characters and ranges names.
use code_notebook.Base.{
  ℕ, ◌≤◌, ◌≡◌, refl, Bool, true, false, ◌&&◌, ◌||◌, List, [], ◌∷◌, some, leb, ◌==◌, arith,
}
use code_notebook.Text.Trim.{Mask, dot, no_bytes, mark, is_range, is_bad_range, char_mask, mask_of}

-- One character, or the characters from one to another, written with two dots.
pub data Item : Type 0 where
  single : ℕ → Item
  range : ℕ → ℕ → Item

pub spell : List Item → List ℕ
spell [] = []
spell (single c ∷ items) = c ∷ spell items
spell (range a b ∷ items) = a ∷ dot ∷ dot ∷ b ∷ spell items

pub names : List Item → ℕ → Bool
names [] c = false
names (single a ∷ items) c = a == c || names items c
names (range a b ∷ items) c = leb a c && leb c b || names items c

-- No item begins with a dot, and each range goes upwards.
abbrev pub AreClear : List Item → Type 0
AreClear [] = Unit {0}
AreClear (single c ∷ items) = ((c == dot) ≡ false) × AreClear items
AreClear (range a b ∷ items) = ((a == dot) ≡ false) × (a ≤ b) × AreClear items

abbrev NoDotFirst : List ℕ → Type 0
NoDotFirst [] = Unit {0}
NoDotFirst (c ∷ s) = (c == dot) ≡ false

spell-NoDotFirst : (items : List Item) → AreClear items → NoDotFirst (spell items)
unfolding spell
spell-NoDotFirst [] h = tt
spell-NoDotFirst (single c ∷ items) h = h.0
spell-NoDotFirst (range a b ∷ items) h = h.0

char_mask-single :
    (c : ℕ) (rest : List ℕ) (result : ℕ) (mask : Mask)
    → (c == dot) ≡ false
    → NoDotFirst rest
    → char_mask (c ∷ rest) result mask ≡ char_mask rest result (mark c c mask)
unfolding char_mask is_range is_bad_range
char_mask-single c [] result mask h n = refl
char_mask-single c (d ∷ []) result mask h n = rw h
char_mask-single c (d ∷ d2 ∷ []) result mask h n = rw (h, char_mask)
char_mask-single c (d ∷ d2 ∷ e ∷ rest) result mask h n = rw (n, char_mask, h)

char_mask-range :
    (a b : ℕ) (rest : List ℕ) (result : ℕ) (mask : Mask)
    → a ≤ b
    → char_mask (a ∷ dot ∷ dot ∷ b ∷ rest) result mask ≡ char_mask rest result (mark a b mask)
unfolding char_mask is_range
char_mask-range a b rest result mask h = let e : leb a b ≡ true = ground arith in rw (e, char_mask)

mark-or : (a b : ℕ) (mask : Mask) (c : ℕ) → mark a b mask c ≡ leb a c && leb c b || mask c
unfolding mark
mark-or a b mask c = ground arith

char_mask-names :
    (items : List Item) (result : ℕ) (mask : Mask)
    → AreClear items
    → ((char_mask (spell items) result mask).0 ≡ result)
      × ((c : ℕ) → (char_mask (spell items) result mask).1 c ≡ names items c || mask c)
unfolding spell names
char_mask-names [] result mask h = unfold char_mask in (refl, λ c. refl)
char_mask-names (single a ∷ items) result mask (h, rest) =
    let (e, f) = char_mask-names items result (mark a a mask) rest in
    rw (char_mask-single a (spell items) result mask h (spell-NoDotFirst items rest))
      (e, λ c. ground (arith, f c, mark-or a a mask c))
char_mask-names (range a b ∷ items) result mask (h, le, rest) =
    let (e, f) = char_mask-names items result (mark a b mask) rest in
    rw (char_mask-range a b (spell items) result mask le)
      (e, λ c. ground (arith, f c, mark-or a b mask c))

-- A list of single characters and upward ranges is read without a complaint, and the mask holds
-- exactly the bytes that it names.
pub mask_of-names :
    (items : List Item)
    → AreClear items
    → ((char_mask (spell items) 0 no_bytes).0 ≡ 0)
      × ((c : ℕ) → mask_of (some (spell items)) c ≡ names items c)
unfolding mask_of
mask_of-names items h =
    let (e, f) = char_mask-names items 0 no_bytes h in (e, λ c. ground (arith, f c))
