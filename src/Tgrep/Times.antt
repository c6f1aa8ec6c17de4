-- ===== src/Tgrep/Times.antt =====
-- c/app/tgrep/tgrep.c: the time at the start of a line of a log. A line is the list of its bytes
-- without the zero; `atoi` is a parameter, and so is the type of its numbers.
pub mod Spelled
pub mod Stamps
use code_notebook.Base.{
  ℕ, zero, suc, ◌+◌, Bool, true, false, List, [], ◌∷◌, ◌++◌, Option, length, take, ltb, ◌==◌,
  if◌then◌else◌,
}
use code_notebook.Run.{Run, ok, fault, ◌>>=◌}
use code_notebook.Tgrep.{conv_month_2_int}

pub record Words : Type 0 where
  pub month : List ℕ
  pub day : List ℕ
  pub time : List ℕ

-- `word[j++] = c; word[j] = 0;` in a buffer of 128 bytes.
abbrev pub push : List ℕ → ℕ → Run (List ℕ)
push word c = if ltb (length word + 1) 128 then ok (word ++ c ∷ []) else fault

-- Into the word of the number x; behind the third word the loop is left.
abbrev pub store : ℕ → ℕ → Words → (Words → Run Words) → Run Words
store zero c w next = push w.month c >>= λ word. next (record w { month = word })
store (suc zero) c w next = push w.day c >>= λ word. next (record w { day = word })
store (suc (suc zero)) c w next = push w.time c >>= λ word. next (record w { time = word })
store (suc (suc (suc x))) c w next = ok w

abbrev pub starts_blank : List ℕ → Bool
starts_blank [] = false
starts_blank (c ∷ line) = c == b' '

unfoldable pub scan : List ℕ → ℕ → Words → Run Words
scan [] x w = ok w
scan (c ∷ line) x w = elim (c == b' ') [
  | true ↦ scan line (if starts_blank line then x else x + 1) w
  | false ↦ store x c w (scan line x)
]

module _ {I : Type 0} (nought : I) (atoi : List ℕ → I) where
  pub record DateTime : Type 0 where
    pub month : Option ℕ
    pub day : I
    pub hour : I
    pub minute : I
    pub second : I

  abbrev pub set_part : ℕ → I → DateTime → DateTime
  set_part zero n t = record t { hour = n }
  set_part (suc zero) n t = record t { minute = n }
  set_part (suc (suc x)) n t = record t { second = n }

  -- The loop over the time; `j` is the place in `tmp`, which a colon does not clear.
  unfoldable pub clock : List ℕ → ℕ → ℕ → List ℕ → DateTime → Run DateTime
  clock [] x j tmp t = ok (record t { second = atoi tmp })
  clock (c ∷ time) x j tmp t = elim (c == b':') [
    | true ↦ clock time (x + 1) 0 tmp (set_part x (atoi tmp) t)
    | false ↦ push (take j tmp) c >>= λ tmp'. clock time x (j + 1) tmp' t
  ]

  abbrev started : Words → DateTime
  started w = record {
    month = conv_month_2_int w.month;
    day = atoi w.day;
    hour = nought;
    minute = nought;
    second = nought;
  }

  unfoldable pub get_datatime_with_line : List ℕ → Run DateTime
  unfolding scan clock
  get_datatime_with_line line = scan line 0 (record { month = []; day = []; time = [] }) >>= λ w.
      clock w.time 0 0 [] (started w)
