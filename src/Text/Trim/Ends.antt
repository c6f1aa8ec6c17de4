-- ===== src/Text/Trim/Ends.antt =====
-- What is cut off, and what is left.
use mathlib.Core.List.{append-nil, append_assoc}
use code_notebook.Base.{
  ℕ, zero, suc, ◌-◌, ◌≤◌, ◌<◌, ◌≡◌, refl, ap, ◌∙◌, sym, Bool, true, false, List, [], ◌∷◌, ◌++◌,
  Option, some, ◌==◌, if◌then◌else◌, length, get_or, take, drop, arith, Bool-cases, inl, inr,
  take-append-drop, length-drop, length-take,
}
use code_notebook.Base.Cells.{take-suc, get_or-take}
use code_notebook.Text.Trim.{Mask, mask_of, leading, trailing, s_trim, up_to_zero, trim_alloc}

-- Every byte is in the mask.
abbrev pub AllIn : Mask → List ℕ → Type 0
AllIn mask [] = Unit {0}
AllIn mask (c ∷ s) = (mask c ≡ true) × AllIn mask s

-- A string that does not begin, or does not end, in the mask.
abbrev pub BeginsOutside : Mask → List ℕ → Type 0
BeginsOutside mask s = 0 < length s → mask (get_or s 0 0) ≡ false

abbrev pub EndsOutside : Mask → List ℕ → Type 0
EndsOutside mask s = 0 < length s → mask (get_or s (length s - 1) 0) ≡ false

leading_lem :
    (mask : Mask) (s : List ℕ)
    → (leading mask s ≤ length s)
      × AllIn mask (take (leading mask s) s)
      × BeginsOutside mask (drop (leading mask s) s)
unfolding leading
leading_lem mask [] = (omega arith, tt, λ h. absurd (omega arith))
leading_lem mask (c ∷ s) = elim (Bool-cases (mask c)) [
  | inl e ↦ let (le, all, next) = leading_lem mask s in rw e (omega arith, (e, all), next)
  | inr e ↦ rw e (omega arith, tt, λ h. e)
]

AllIn-append : (mask : Mask) (a b : List ℕ) → AllIn mask a → AllIn mask b → AllIn mask (a ++ b)
AllIn-append mask [] b p q = q
AllIn-append mask (x ∷ a) b (h, p) q = (h, AllIn-append mask a b p q)

last_outside_of :
    (mask : Mask) (s : List ℕ) (i : ℕ)
    → mask (get_or s i 0) ≡ false
    → suc i ≤ length s
    → mask (get_or (take (suc i) s) (length (take (suc i) s) - 1) 0) ≡ false
last_outside_of mask s i e h =
    let n : length (take (suc i) s) - 1 ≡ i = omega (arith, length-take (suc i) s) in
    rw (n, get_or-take (suc i) s i 0 (omega arith)) e

-- The first `n` of the bytes are `kept` and then bytes of the mask.
trailing_lem :
    (mask : Mask) (s : List ℕ) (n : ℕ)
    → n ≤ length s
    → (cut : List ℕ) × (trailing mask s n ≤ n)
      × (take n s ≡ take (trailing mask s n) s ++ cut)
      × AllIn mask cut
      × EndsOutside mask (take (trailing mask s n) s)
unfolding trailing
trailing_lem mask s zero h = ([], omega arith, refl, tt, λ p. absurd (omega arith))
trailing_lem mask s (suc i) h = elim (Bool-cases (mask (get_or s i 0))) [
  | inl e ↦
      let (cut, le, parts, all, last) = trailing_lem mask s i (omega arith) in
      rw e (
        cut ++ get_or s i 0 ∷ [],
        omega arith,
        take-suc i s 0 h ∙ ap (λ (t : List ℕ). t ++ get_or s i 0 ∷ []) parts ∙ append_assoc _ cut _,
        AllIn-append mask cut _ all (e, tt),
        last,
      )
  | inr e ↦ rw e ([], omega arith, sym (append-nil _), tt, λ p. last_outside_of mask s i e h)
]

-- The three parts of a string that was trimmed.
pub record Trimmed (mask : Mask) (left right : Bool) (str : List ℕ) (t l : ℕ) : Type 0 where
  pub front : List ℕ
  pub kept : List ℕ
  pub back : List ℕ
  pub whole : str ≡ front ++ (kept ++ back)
  pub skipped : length front ≡ t
  pub size : length kept ≡ l
  pub front_in : AllIn mask front
  pub back_in : AllIn mask back
  pub no_front : left ≡ false → front ≡ []
  pub no_back : right ≡ false → back ≡ []
  pub begins : left ≡ true → BeginsOutside mask kept
  pub ends : right ≡ true → EndsOutside mask kept

begins_of_append : (mask : Mask) (a b : List ℕ) → BeginsOutside mask (a ++ b) → BeginsOutside mask a
begins_of_append mask [] b h p = absurd (omega arith)
begins_of_append mask (x ∷ a) b h p = h (omega arith)

take_all : (s : List ℕ) → take (length s) s ≡ s
take_all [] = refl
take_all (x ∷ s) = ap (◌∷◌ x) (take_all s)

right_part :
    (mask : Mask) (left right : Bool) (front rest str : List ℕ) (t : ℕ)
    → str ≡ front ++ rest
    → length front ≡ t
    → AllIn mask front
    → (left ≡ false → front ≡ [])
    → (left ≡ true → BeginsOutside mask rest)
    → Trimmed mask left right str t
        (if right then trailing mask rest (length rest) else length rest)
right_part mask left true front rest str t whole n all none_cut begins =
    let (cut, le, parts, all', last) = trailing_lem mask rest (length rest) (omega arith) in
    let kept = take (trailing mask rest (length rest)) rest in
    let joined : rest ≡ kept ++ cut = sym (take_all rest) ∙ parts in
    record {
      front = front;
      kept = kept;
      back = cut;
      whole = whole ∙ ap (λ (u : List ℕ). front ++ u) joined;
      skipped = n;
      size = omega (arith, length-take (trailing mask rest (length rest)) rest);
      front_in = all;
      back_in = all';
      no_front = none_cut;
      no_back = λ h. cc;
      begins = λ h. begins_of_append mask kept cut (rw joined at (begins h));
      ends = λ h. last;
    }
right_part mask left false front rest str t whole n all none_cut begins = record {
  front = front;
  kept = rest;
  back = [];
  whole = whole ∙ ap (λ (u : List ℕ). front ++ u) (sym (append-nil rest));
  skipped = n;
  size = refl;
  front_in = all;
  back_in = tt;
  no_front = none_cut;
  no_back = λ h. refl;
  begins = begins;
  ends = λ h. cc;
}

-- _s_trim cuts from the chosen ends exactly the longest runs of bytes in the mask: the string is
-- what was skipped, what is left and what was cut behind it, both cuts lie in the mask, a side
-- that was not asked for loses nothing, and one that was asked for ends outside the mask.
pub s_trim-Trimmed :
    (str : List ℕ) (what : Option (List ℕ)) (left right : Bool)
    → Trimmed
        (mask_of what)
        left
        right
        str
        (s_trim str what left right).0
        (s_trim str what left right).1
unfolding s_trim
s_trim-Trimmed str what true right =
    let mask = mask_of what in
    let t = leading mask str in
    let (le, all, next) = leading_lem mask str in
    rw (← length-drop t str) (
      right_part mask true right (take t str) (drop t str) str t (sym (take-append-drop t str))
        (omega (arith, length-take t str)) all (λ h. cc) (λ h. next))
s_trim-Trimmed str what false right =
    let n : length str - 0 ≡ length str = omega arith in
    rw n (right_part (mask_of what) false right [] str str 0 refl refl tt (λ h. refl) (λ h. cc))

abbrev pub NoZero : List ℕ → Type 0
NoZero [] = Unit {0}
NoZero (c ∷ s) = ((c == 0) ≡ false) × NoZero s

up_to_zero-append : (s rest : List ℕ) → NoZero s → up_to_zero (length s) (s ++ rest) ≡ s
unfolding up_to_zero
up_to_zero-append [] rest h = refl
up_to_zero-append (c ∷ s) rest (e, h) = rw (e, up_to_zero-append s rest h)

-- A C string in a longer block.
pub up_to_zero-ends :
    (n : ℕ) (text rest : List ℕ)
    → NoZero text
    → length text < n
    → up_to_zero n (text ++ 0 ∷ rest) ≡ text
unfolding up_to_zero
up_to_zero-ends zero text rest h less = absurd (omega arith)
up_to_zero-ends (suc n) [] rest h less = refl
up_to_zero-ends (suc n) (c ∷ text) rest h less =
    rw h.0 (ap (◌∷◌ c) (up_to_zero-ends n text rest h.1 (omega arith)))

NoZero-append : (a b : List ℕ) → NoZero (a ++ b) → NoZero a × NoZero b
NoZero-append [] b h = (tt, h)
NoZero-append (c ∷ a) b (e, h) = let (p, q) = NoZero-append a b h in ((e, p), q)

drop-append : (a b : List ℕ) → drop (length a) (a ++ b) ≡ b
drop-append [] b = refl
drop-append (x ∷ a) b = drop-append a b

-- Of a string without zeros, str_trim_alloc and its two kin return what _s_trim leaves.
pub trim_alloc-Trimmed :
    (str : List ℕ) (what : Option (List ℕ)) (left right : Bool)
    → NoZero str
    → (t l : ℕ) × (parts : Trimmed (mask_of what) left right str t l) × (trim_alloc true str what
          left right
        ≡ some parts.kept)
unfolding trim_alloc
trim_alloc-Trimmed str what left right h =
    let parts = s_trim-Trimmed str what left right in
    let t = (s_trim str what left right).0 in
    let l = (s_trim str what left right).1 in
    let kept =
      (NoZero-append parts.kept parts.back
        (NoZero-append parts.front _ (rw parts.whole at h)).1).0 in
    let at_kept : drop t str ≡ parts.kept ++ parts.back =
      ap (drop t) parts.whole
      ∙ rw (← parts.skipped) (drop-append parts.front (parts.kept ++ parts.back)) in
    (
      t,
      l,
      parts,
      ap some (rw (at_kept, ← parts.size) (up_to_zero-append parts.kept parts.back kept)),
    )
