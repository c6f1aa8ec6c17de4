-- ===== src/Tgrep/Times/Spelled.antt =====
-- c/app/tgrep/tgrep.c: how a line is cut into its words.
use mathlib.Core.List.{append_assoc, append-nil}
use code_notebook.Base.{
  ℕ, zero, suc, ◌+◌, ◌≤◌, ◌<◌, ◌≡◌, refl, ap, ◌∙◌, Bool, false, List, [], ◌∷◌, ◌++◌, arith, length,
  length-append, replicate, lt→ltb, ==_iff, Bool-cases, inl, inr, if-cases, ◌==◌, if◌then◌else◌,
}
use code_notebook.Run.{Run, ok}
use code_notebook.Tgrep.Times.{Words, push, store, starts_blank, scan}

-- No byte of the list is `b`.
abbrev pub Without : ℕ → List ℕ → Type 0
Without b [] = Unit
Without b (c ∷ word) = ((c == b) ≡ false) × Without b word

abbrev word_of : ℕ → Words → List ℕ
word_of zero w = w.month
word_of (suc zero) w = w.day
word_of (suc (suc x)) w = w.time

abbrev extend : ℕ → List ℕ → Words → Words
extend zero word w = record w { month = w.month ++ word }
extend (suc zero) word w = record w { day = w.day ++ word }
extend (suc (suc x)) word w = record w { time = w.time ++ word }

pub push_lem : (word : List ℕ) (c : ℕ) → length word + 1 < 128 → push word c ≡ ok (word ++ c ∷ [])
push_lem word c h = rw (lt→ltb (length word + 1) 128 h)

store-extend :
    (x c : ℕ) (w : Words) (next : Words → Run Words)
    → x < 3
    → length (word_of x w) + 1 < 128
    → store x c w next ≡ next (extend x (c ∷ []) w)
store-extend zero c w next h room = rw (push_lem w.month c room)
store-extend (suc zero) c w next h room = rw (push_lem w.day c room)
store-extend (suc (suc zero)) c w next h room = rw (push_lem w.time c room)
store-extend (suc (suc (suc x))) c w next h room = absurd (omega arith)

extend-extend :
    (x c : ℕ) (word : List ℕ) (w : Words)
    → extend x word (extend x (c ∷ []) w) ≡ extend x (c ∷ word) w
extend-extend zero c word w =
    ap (λ (t : List ℕ). record w { month = t }) (append_assoc w.month (c ∷ []) word)
extend-extend (suc zero) c word w =
    ap (λ (t : List ℕ). record w { day = t }) (append_assoc w.day (c ∷ []) word)
extend-extend (suc (suc x)) c word w =
    ap (λ (t : List ℕ). record w { time = t }) (append_assoc w.time (c ∷ []) word)

extend-nil : (x : ℕ) (w : Words) → extend x [] w ≡ w
extend-nil zero w = ap (λ (t : List ℕ). record w { month = t }) (append-nil w.month)
extend-nil (suc zero) w = ap (λ (t : List ℕ). record w { day = t }) (append-nil w.day)
extend-nil (suc (suc x)) w = ap (λ (t : List ℕ). record w { time = t }) (append-nil w.time)

length-word_of :
    (x c : ℕ) (w : Words) → length (word_of x (extend x (c ∷ []) w)) ≡ length (word_of x w) + 1
length-word_of zero c w = length-append w.month (c ∷ [])
length-word_of (suc zero) c w = length-append w.day (c ∷ [])
length-word_of (suc (suc x)) c w = length-append w.time (c ∷ [])

-- A word without blanks goes to its buffer.
scan-word :
    (word rest : List ℕ) (x : ℕ) (w : Words)
    → x < 3
    → Without b' ' word
    → length (word_of x w) + length word < 128
    → scan (word ++ rest) x w ≡ scan rest x (extend x word w)
unfolding scan
scan-word [] rest x w h whole room = rw (extend-nil x w)
scan-word (c ∷ word) rest x w h whole room =
    rw (whole.0, scan)
      (store-extend x c w (scan (word ++ rest) x) h (omega arith)
        ∙ scan-word word rest x (extend x (c ∷ []) w) h whole.1
            (omega (arith, length-word_of x c w))
        ∙ ap (scan rest x) (extend-extend x c word w))

-- Blanks before a word count once.
scan-blanks :
    (k c : ℕ) (rest : List ℕ) (x : ℕ) (w : Words)
    → (c == b' ') ≡ false
    → scan (replicate (suc k) b' ' ++ c ∷ rest) x w ≡ scan (c ∷ rest) (x + 1) w
unfolding scan
scan-blanks zero c rest x w h = ap (λ (b : Bool). scan (c ∷ rest) (if b then x else x + 1) w) h
scan-blanks (suc k) c rest x w h = scan-blanks k c rest x w h

store_done : (x c : ℕ) (w : Words) (next : Words → Run Words) → 3 ≤ x → store x c w next ≡ ok w
store_done zero c w next h = absurd (omega arith)
store_done (suc zero) c w next h = absurd (omega arith)
store_done (suc (suc zero)) c w next h = absurd (omega arith)
store_done (suc (suc (suc x))) c w next h = refl

scan_done : (rest : List ℕ) (x : ℕ) (w : Words) → 3 ≤ x → scan rest x w ≡ ok w
unfolding scan
scan_done [] x w h = refl
scan_done (c ∷ rest) x w h = elim (Bool-cases (c == b' ')) [
  | inl blank ↦
      rw (blank, scan)
        (if-cases (λ (y : ℕ). scan rest y w ≡ ok w) (starts_blank rest) (λ e. scan_done rest x w h)
          (λ e. scan_done rest (x + 1) w (omega arith)))
  | inr other ↦ rw (other, scan) (store_done x c w (scan rest x) h)
]

-- What follows the third word is not read.
scan_tail : (rest : List ℕ) (w : Words) → scan (b' ' ∷ rest) 2 w ≡ ok w
unfolding scan
scan_tail [] w = refl
scan_tail (c ∷ rest) w = elim (Bool-cases (c == b' ')) [
  | inl blank ↦
      ap (λ (b : Bool). scan (c ∷ rest) (if b then 2 else 3) w) blank
      ∙ ap (λ (d : ℕ). scan (d ∷ rest) 2 w) ((==_iff c b' ').0 blank)
      ∙ scan_tail rest w
  | inr other ↦
      ap (λ (b : Bool). scan (c ∷ rest) (if b then 2 else 3) w) other
      ∙ scan_done (c ∷ rest) 3 w (omega arith)
]

-- What stands behind the time: nothing, or a blank and anything.
pub data Tail : List ℕ → Type 0 where
  nothing : Tail []
  blank_and : (rest : List ℕ) → Tail (b' ' ∷ rest)

scan-Tail : {rest : List ℕ} (w : Words) → Tail rest → scan rest 2 w ≡ ok w
unfolding scan
scan-Tail w nothing = refl
scan-Tail w (blank_and rest) = scan_tail rest w

abbrev pub stamp_of : List ℕ → List ℕ → List ℕ → List ℕ
stamp_of h m s = h ++ (b':' ∷ m ++ (b':' ∷ s))

-- A line with `suc j` and `suc k` blanks between its words.
abbrev pub line_of : ℕ → ℕ → List ℕ → List ℕ → List ℕ → List ℕ → List ℕ
line_of j k month day stamp rest =
    month ++ (replicate (suc j) b' ' ++ (day ++ (replicate (suc k) b' ' ++ (stamp ++ rest))))

scan-blanks_word :
    (k : ℕ) (word rest : List ℕ) (x : ℕ) (w : Words)
    → Without b' ' word
    → 0 < length word
    → scan (replicate (suc k) b' ' ++ (word ++ rest)) x w ≡ scan (word ++ rest) (x + 1) w
scan-blanks_word k [] rest x w whole full = elim full [ ]
scan-blanks_word k (c ∷ word) rest x w whole full = scan-blanks k c (word ++ rest) x w whole.0

pub scan-line_of :
    (j k : ℕ) (month day stamp : List ℕ) {rest : List ℕ}
    → Tail rest
    → Without b' ' month × Without b' ' day × Without b' ' stamp
    → (0 < length day) × (0 < length stamp)
    → (length month < 128) × (length day < 128) × (length stamp < 128)
    → scan (line_of j k month day stamp rest) 0 (record { month = []; day = []; time = [] })
      ≡ ok (record { month = month; day = day; time = stamp })
scan-line_of j k month day stamp {rest = rest} tail blanks full room =
    let w0 : Words = record { month = []; day = []; time = [] } in
    let w1 : Words = record { month = month; day = []; time = [] } in
    let w2 : Words = record { month = month; day = day; time = [] } in
    let w3 : Words = record { month = month; day = day; time = stamp } in
    let last = stamp ++ rest in
    let later = day ++ (replicate (suc k) b' ' ++ last) in
    scan-word month (replicate (suc j) b' ' ++ later) 0 w0 (omega arith) blanks.0 (omega arith)
    ∙ scan-blanks_word j day (replicate (suc k) b' ' ++ last) 0 w1 blanks.1 full.0
    ∙ scan-word day (replicate (suc k) b' ' ++ last) 1 w1 (omega arith) blanks.1 (omega arith)
    ∙ scan-blanks_word k stamp rest 1 w2 blanks.2 full.1
    ∙ scan-word stamp rest 2 w2 (omega arith) blanks.2 (omega arith)
    ∙ scan-Tail w3 tail

pub length-stamp_of :
    (h m s : List ℕ) → length (stamp_of h m s) ≡ length h + length m + length s + 2
length-stamp_of h m s =
    omega (arith, length-append h (b':' ∷ m ++ (b':' ∷ s)), length-append m (b':' ∷ s))
