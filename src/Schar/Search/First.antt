-- ===== src/Schar/Search/First.antt =====
-- _schar_memnstr finds the first place where the needle stands.
use code_notebook.Base.{
  ℕ, zero, suc, ◌+◌, ◌-◌, ◌≤◌, ◌<◌, ◌≡◌, refl, sym, ap, ◌∙◌, true, false, ◌&&◌, List, [], ◌∷◌,
  Option, none, some, arith, ltb, ◌==◌, if◌then◌else◌, length, get_or, take, drop, length-drop,
  Bool-cases, inl, inr,
}
use code_notebook.Run.{ok}
use code_notebook.Schar.Search.{memchr, is_prefix, shift, compare_at, memnstr_loop, memnstr}

-- The search by definition: one place after the other.
pub first_match : List ℕ → List ℕ → Option ℕ
first_match needle [] = none
first_match needle (b ∷ text) =
    let later = first_match needle text in
    if is_prefix needle (b ∷ text) then some 0 else shift 1 later

prefix_short : (needle text : List ℕ) → length text < length needle → is_prefix needle text ≡ false
unfolding is_prefix
prefix_short [] text h = absurd (omega arith)
prefix_short (c ∷ needle) [] h = refl
prefix_short (c ∷ needle) (b ∷ text) h = ground (arith, prefix_short needle text (omega arith))

first_match_short :
    (needle text : List ℕ) → length text < length needle → first_match needle text ≡ none
unfolding first_match shift
first_match_short needle [] h = refl
first_match_short needle (b ∷ text) h =
    rw (prefix_short needle (b ∷ text) h, first_match_short needle text (omega arith)) refl

shift-shift : (i : ℕ) (o : Option ℕ) → shift 1 (shift i o) ≡ shift (suc i) o
unfolding shift
shift-shift i none = refl
shift-shift i (some k) = ap some (omega arith)

shift-zero : (o : Option ℕ) → shift 0 o ≡ o
unfolding shift
shift-zero none = refl
shift-zero (some k) = ap some (omega arith)

-- Only where its first byte stands can a needle stand.
data Skipped (needle text : List ℕ) : Option ℕ → Type 0 where
  skipped_all : first_match needle text ≡ none → Skipped needle text none
  skipped :
      (i : ℕ)
      → i + length needle ≤ length text
      → first_match needle text ≡ shift i (first_match needle (drop i text))
      → Skipped needle text (some i)

first_match_elsewhere :
    (c b : ℕ) (needle text : List ℕ)
    → (b == c) ≡ false
    → first_match (c ∷ needle) (b ∷ text) ≡ shift 1 (first_match (c ∷ needle) text)
unfolding first_match is_prefix
first_match_elsewhere c b needle text h = rw h refl

shift-none : shift 1 none ≡ none
unfolding shift
shift-none = refl

pass :
    (c b : ℕ) (needle text : List ℕ)
    → (b == c) ≡ false
    → (o : Option ℕ) → Skipped (c ∷ needle) text o
    → Skipped (c ∷ needle) (b ∷ text) (elim o [ none ↦ none | some i ↦ some (suc i) ])
pass c b needle text h o (skipped_all e) =
    skipped_all (first_match_elsewhere c b needle text h ∙ ap (shift 1) e ∙ shift-none)
pass c b needle text h o (skipped i fits e) =
    skipped (suc i) (omega arith)
      (first_match_elsewhere c b needle text h ∙ ap (shift 1) e ∙ shift-shift i _)

memchr-Skipped :
    (c : ℕ) (needle text : List ℕ) (m : ℕ)
    → length text ≡ m + length needle
    → Skipped (c ∷ needle) text (memchr c text m)
unfolding memchr
memchr-Skipped c needle text zero h =
    skipped_all (first_match_short (c ∷ needle) text (omega arith))
memchr-Skipped c needle [] (suc m) h = absurd (omega arith)
memchr-Skipped c needle (b ∷ text) (suc m) h = elim (Bool-cases (b == c)) [
  | inl here ↦ rw here (skipped 0 (omega arith) (sym (shift-zero _)))
  | inr elsewhere ↦ rw elsewhere (
      pass c b needle text elsewhere (memchr c text m)
        (memchr-Skipped c needle text m (omega arith)))
]

-- The two comparisons of the code are one.
compare-is_prefix :
    (needle text : List ℕ) (k : ℕ)
    → length needle ≡ suc k
    → suc k ≤ length text
    → (get_or text k 0 == get_or needle k 0 && is_prefix (take k needle) text)
      ≡ is_prefix needle text
unfolding is_prefix
compare-is_prefix [] text k h le = absurd (omega arith)
compare-is_prefix (c ∷ needle) [] k h le = absurd (omega arith)
compare-is_prefix (c ∷ []) (b ∷ text) zero h le = refl
compare-is_prefix (c ∷ d ∷ needle) (b ∷ text) zero h le = absurd (omega arith)
compare-is_prefix (c ∷ needle) (b ∷ text) (suc k) h le =
    ground (arith, compare-is_prefix needle text k (omega arith) (omega arith))

-- The search goes on behind a place where the needle does not stand.
first_match_after :
    (needle text : List ℕ)
    → 0 < length text
    → is_prefix needle text ≡ false
    → first_match needle text ≡ shift 1 (first_match needle (drop 1 text))
unfolding first_match
first_match_after needle [] h e = absurd (omega arith)
first_match_after needle (b ∷ text) h e = rw e refl

first_match_here :
    (needle text : List ℕ)
    → 0 < length text
    → is_prefix needle text ≡ true
    → first_match needle text ≡ some 0
unfolding first_match
first_match_here needle [] h e = absurd (omega arith)
first_match_here needle (b ∷ text) h e = rw e refl

drop-drop : (i : ℕ) (text : List ℕ) → drop 1 (drop i text) ≡ drop (i + 1) text
drop-drop zero [] = refl
drop-drop zero (b ∷ text) = refl
drop-drop (suc i) [] = let e : suc i + 1 ≡ suc (i + 1) = omega arith in rw e refl
drop-drop (suc i) (b ∷ text) =
    let e : suc i + 1 ≡ suc (i + 1) = omega arith in rw e (drop-drop i text)

shift-sum : (i : ℕ) (o : Option ℕ) → shift i (shift 1 o) ≡ shift (i + 1) o
unfolding shift
shift-sum i none = refl
shift-sum i (some k) = ap some (omega arith)

shift-here : (i : ℕ) → shift i (some 0) ≡ some i
unfolding shift
shift-here i = ap some (omega arith)

found_here :
    (needle text : List ℕ) (i : ℕ)
    → 0 < length (drop i text)
    → is_prefix needle (drop i text) ≡ true
    → shift i (first_match needle (drop i text)) ≡ some i
found_here needle text i h e =
    ap (shift i) (first_match_here needle (drop i text) h e) ∙ shift-here i

found_later :
    (needle text : List ℕ) (i : ℕ)
    → 0 < length (drop i text)
    → is_prefix needle (drop i text) ≡ false
    → shift i (first_match needle (drop i text))
      ≡ shift (i + 1) (first_match needle (drop (i + 1) text))
found_later needle text i h e =
    ap (shift i) (first_match_after needle (drop i text) h e)
    ∙ shift-sum i (first_match needle (drop 1 (drop i text)))
    ∙ ap (λ (t : List ℕ). shift (i + 1) (first_match needle t)) (drop-drop i text)

-- One turn, when the loop goes on as it should.
turn :
    (fuel c : ℕ) (rest text : List ℕ) (o : Option ℕ)
    → ((later : List ℕ)
        → length later < length text
        → memnstr_loop fuel later (c ∷ rest) ≡ ok (first_match (c ∷ rest) later))
    → Skipped (c ∷ rest) text o
    → compare_at (λ later. memnstr_loop fuel later (c ∷ rest)) text (c ∷ rest) o
      ≡ ok (first_match (c ∷ rest) text)
unfolding compare_at
turn fuel c rest text o next (skipped_all e) = ap ok (sym e)
turn fuel c rest text o next (skipped i fits e) =
    let k : length (c ∷ rest) - 1 ≡ length rest = omega arith in
    let wide : suc (length rest) ≤ length (drop i text) = omega (arith, length-drop i text) in
    let test = compare-is_prefix (c ∷ rest) (drop i text) (length rest) refl wide in
    rw (k, test)
      (elim (Bool-cases (is_prefix (c ∷ rest) (drop i text))) [
        | inl here ↦ rw here (ap ok (sym (e ∙ found_here (c ∷ rest) text i (omega arith) here)))
        | inr elsewhere ↦
            rw (elsewhere, next (drop (i + 1) text) (omega (arith, length-drop (i + 1) text)))
              (ap ok (sym (e ∙ found_later (c ∷ rest) text i (omega arith) elsewhere)))
      ])

memnstr_loop-first_match :
    (fuel c : ℕ) (rest text : List ℕ)
    → length text < fuel
    → memnstr_loop fuel text (c ∷ rest) ≡ ok (first_match (c ∷ rest) text)
unfolding memnstr_loop
memnstr_loop-first_match zero c rest text h = absurd (omega arith)
memnstr_loop-first_match (suc fuel) c rest text h =
    elim (Bool-cases (ltb (length text) (length (c ∷ rest)))) [
      | inl short ↦ rw short (ap ok (sym (first_match_short (c ∷ rest) text (ground arith))))
      | inr room ↦
          let m = length text - length (c ∷ rest) + 1 in
          let enough : length text ≡ m + length rest = ground arith in
          rw room (
            turn fuel c rest text (memchr c text m)
              (λ later less. memnstr_loop-first_match fuel c rest later (omega arith))
              (memchr-Skipped c rest text m enough))
    ]

shift_one : (o : Option ℕ) → shift 1 o ≡ elim o [ none ↦ none | some i ↦ some (suc i) ]
unfolding shift
shift_one none = refl
shift_one (some i) = ap some (omega arith)

memchr-first_match :
    (c : ℕ) (text : List ℕ) → memchr c text (length text) ≡ first_match (c ∷ []) text
unfolding memchr first_match is_prefix shift
memchr-first_match c [] = refl
memchr-first_match c (b ∷ text) = elim (Bool-cases (b == c)) [
  | inl here ↦ rw here refl
  | inr elsewhere ↦
      rw (elsewhere, memchr-first_match c text) (sym (shift_one (first_match (c ∷ []) text)))
]

-- _schar_memnstr, with a needle that is not empty, ends inside the text and the needle and finds
-- the first place at which all bytes of the needle stand, or nothing if there is no such place.
pub memnstr-first_match :
    (text needle : List ℕ) → 0 < length needle → memnstr text needle ≡ ok (first_match needle text)
unfolding memnstr
memnstr-first_match text [] h = absurd (omega arith)
memnstr-first_match text (c ∷ []) h = ap ok (memchr-first_match c text)
memnstr-first_match text (c ∷ d ∷ needle) h =
    memnstr_loop-first_match (length text + 1) c (d ∷ needle) text (omega arith)

-- What is found lies below `n`.
abbrev pub Below : ℕ → Option ℕ → Type 0
Below n none = Unit
Below n (some i) = i < n

pub shift-Below : (k n : ℕ) (o : Option ℕ) → Below n o → Below (k + n) (shift k o)
unfolding shift
shift-Below k n none h = tt
shift-Below k n (some i) h = omega arith

pub Below-weaken : (n m : ℕ) (o : Option ℕ) → n ≤ m → Below n o → Below m o
Below-weaken n m none less h = tt
Below-weaken n m (some i) less h = omega arith

pub first_match-Below : (needle text : List ℕ) → Below (length text) (first_match needle text)
unfolding first_match
first_match-Below needle [] = tt
first_match-Below needle (b ∷ text) = elim (Bool-cases (is_prefix needle (b ∷ text))) [
  | inl here ↦ rw here (omega arith)
  | inr other ↦ rw other (
      Below-weaken (1 + length text) (suc (length text)) (shift 1 (first_match needle text))
        (omega arith)
        (shift-Below 1 (length text) (first_match needle text) (first_match-Below needle text)))
]
