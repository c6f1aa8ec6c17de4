-- ===== src/Tgrep/Position/Tests.antt =====
-- A log of three lines of 20 bytes each.
use mathlib.Core.Path.{subst}
use code_notebook.Base.{
  ℕ, ◌+◌, ◌-◌, ◌*◌, ◌≤◌, ◌≡◌, inl, inr, refl, Bool, true, false, List, [], ◌∷◌, some, arith,
  Bool-cases, true-ne-false, ap, sym, ◌∙◌, ltb, lt→ltb, leb, if◌then◌else◌, if-cases,
}
use code_notebook.Run.{Run, ok, out_of_fuel, Ends}
use code_notebook.Tgrep.{conv_month_2_int}
use code_notebook.Tgrep.Times.{DateTime, get_datatime_with_line}
use code_notebook.Tgrep.Times.Spelled.{blank_and, stamp_of, line_of}
use code_notebook.Tgrep.Times.Stamps.{get_datatime_with_line_lem}
use code_notebook.Tgrep.Position.{Got, line, at_end, get_pos}
use code_notebook.Tgrep.Position.Probes.{IsLog, Parses, Shows, shows}
use code_notebook.Tgrep.Position.Ending.{Behind, get_pos-Ends}
use code_notebook.Tgrep.Position.Hanging.{get_pos_hangs}

-- Reads a string of digits.
digits : ℕ → List ℕ → ℕ
digits n [] = n
digits n (c ∷ rest) = digits (10 * n + (c - b'0')) rest

atoi : List ℕ → ℕ
unfolding digits
atoi = digits 0

abbrev may : List ℕ
may = b'M' ∷ b'a' ∷ b'y' ∷ []

abbrev two : ℕ → ℕ → List ℕ
two a b = (b'0' + a) ∷ (b'0' + b) ∷ []

abbrev at_hour : ℕ → ℕ → List ℕ
at_hour a b =
    line_of 1 0 may (b'7' ∷ []) (stamp_of (two a b) (two 3 0) (two 0 1)) (b' ' ∷ b'x' ∷ [])

get_datatime_with_line_lem_example :
    get_datatime_with_line 0 atoi (at_hour 1 1)
    ≡ ok (record {
      month = conv_month_2_int may;
      day = atoi (b'7' ∷ []);
      hour = atoi (two 1 1);
      minute = atoi (two 3 0);
      second = atoi (two 0 1);
    })
get_datatime_with_line_lem_example =
    get_datatime_with_line_lem 0 atoi 1 0 may (b'7' ∷ []) (two 1 1) (two 3 0) (two 0 1)
      (blank_and (b'x' ∷ [])) (ground arith) (ground arith) (omega arith) (omega arith)

-- Lines of 20 bytes that begin at 0, 20 and 40, of the hours 07, 09 and 11.
abbrev fgets : ℕ → Got
fgets c =
    if ltb c 20
    then line (at_hour 0 7) 20 false
    else if ltb c 40
    then line (at_hour 0 9) 40 false
    else if ltb c 60
    then line (at_hour 1 1) 60 false
    else at_end

abbrev stamped : ℕ → ℕ → DateTime 0 atoi
stamped a b = record {
  month = conv_month_2_int may;
  day = atoi (b'7' ∷ []);
  hour = atoi (two a b);
  minute = atoi (two 3 0);
  second = atoi (two 0 1);
}

at_7 : get_datatime_with_line 0 atoi (at_hour 0 7) ≡ ok (stamped 0 7)
unfolding get_datatime_with_line
at_7 = refl

at_9 : get_datatime_with_line 0 atoi (at_hour 0 9) ≡ ok (stamped 0 9)
unfolding get_datatime_with_line
at_9 = refl

at_11 : get_datatime_with_line 0 atoi (at_hour 1 1) ≡ ok (stamped 1 1)
unfolding get_datatime_with_line
at_11 = refl

abbrev bytes_of : Got → List ℕ
bytes_of at_end = []
bytes_of (line bytes after eof) = bytes

abbrev Good : List ℕ → Type 0
Good = Parses 0 atoi leb fgets

same_line :
    (old : List ℕ) (place : ℕ) (bytes : List ℕ) (after : ℕ) (eof : Bool)
    → Good old
    → line old place false ≡ line bytes after eof
    → Good bytes
same_line old place bytes after eof good e = subst Good (ap bytes_of e) good

end_ne : {bytes : List ℕ} {after : ℕ} {eof : Bool} → at_end ≡ line bytes after eof → ⊥
end_ne e = cc

fgets-IsLog : IsLog 0 atoi leb fgets
fgets-IsLog c bytes after eof =
    let P = λ (got : Got). got ≡ line bytes after eof → Good bytes in
    if-cases P (ltb c 20) (λ _. same_line (at_hour 0 7) 20 bytes after eof (stamped 0 7, at_7))
      (λ _.
        if-cases P (ltb c 40) (λ _. same_line (at_hour 0 9) 40 bytes after eof (stamped 0 9, at_9))
          (λ _.
            if-cases P (ltb c 60)
              (λ _. same_line (at_hour 1 1) 60 bytes after eof (stamped 1 1, at_11))
              (λ _ e. absurd (end_ne e))))

hour_of : Run (DateTime 0 atoi) → ℕ
hour_of (ok dt) = dt.hour
hour_of other = 0

-- The second line shows the hour 9.
early : ¬ Shows 0 atoi leb fgets 10 0 true
unfolding hour_of atoi
early (shows bytes after eof dt e p l) =
    let same : at_hour 0 9 ≡ bytes = ap bytes_of e in
    let nine : 9 ≡ dt.hour = ap hour_of (sym at_9 ∙ ap (get_datatime_with_line 0 atoi) same ∙ p) in
    true-ne-false l (ap (leb 10) (sym nine))

get_pos-Ends_example :
    Ends (Behind 0 atoi leb fgets fgets-IsLog 10 60) (get_pos 0 atoi leb fgets 62 60 (some 10) true)
get_pos-Ends_example =
    get_pos-Ends 0 atoi leb fgets fgets-IsLog 10 60 early refl (omega arith) 61 (omega arith)

-- Whatever the place in the first half, a line follows, and no hour is before 0.
late_line : (c : ℕ) → c ≤ 30 → Shows 0 atoi leb fgets 0 c true
unfolding atoi
late_line c h = elim (Bool-cases (ltb c 20)) [
  | inl e ↦ shows (at_hour 0 9) 40 false (stamped 0 9) (rw e refl) at_9 refl
  | inr e ↦
      (let second_line : ltb c 40 ≡ true = lt→ltb c 40 (omega arith) in
        shows (at_hour 1 1) 60 false (stamped 1 1) (rw (e, second_line) refl) at_11 refl)
]

get_pos_hangs_example : get_pos 0 atoi leb fgets 1000 60 (some 0) false ≡ out_of_fuel
get_pos_hangs_example = get_pos_hangs 0 atoi leb fgets false 0 60 late_line 1000
