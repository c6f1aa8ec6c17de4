-- ===== src/Tgrep/Times/Stamps.antt =====
-- c/app/tgrep/tgrep.c: what the time of a line is read as.
use mathlib.Core.List.{append_assoc, append-nil}
use code_notebook.Base.{
  ℕ, suc, ◌+◌, ◌<◌, ◌≡◌, refl, ap, sym, ◌∙◌, false, List, [], ◌∷◌, ◌++◌, arith, length,
  length-append, take, ◌==◌,
}
use code_notebook.Run.{Run, ok, ◌>>=◌}
use code_notebook.Tgrep.{conv_month_2_int}
use code_notebook.Tgrep.Times.{
  Words, push, DateTime, set_part, clock, started, get_datatime_with_line,
}
use code_notebook.Tgrep.Times.Spelled.{
  Without, push_lem, stamp_of, line_of, scan-line_of, length-stamp_of, Tail,
}

take-length : (word : List ℕ) → take (length word) word ≡ word
take-length [] = refl
take-length (c ∷ word) = ap (λ (t : List ℕ). c ∷ t) (take-length word)

module _ {I : Type 0} (nought : I) (atoi : List ℕ → I) where
  clock_step :
      (c : ℕ) (time : List ℕ) (x j : ℕ) (tmp word : List ℕ) (t : DateTime nought atoi)
      → (c == b':') ≡ false
      → take j tmp ≡ word
      → length word + 1 < 128
      → clock nought atoi (c ∷ time) x j tmp t ≡ clock nought atoi time x (j + 1) (word ++ c ∷ []) t
  unfolding clock
  clock_step c time x j tmp word t h e room =
      rw (h, clock)
        (ap (λ (r : Run (List ℕ)). r >>= λ tmp'. clock nought atoi time x (j + 1) tmp' t)
          (ap (λ (w : List ℕ). push w c) e ∙ push_lem word c room))

  clock-grown :
      (word rest : List ℕ) (x j : ℕ) (tmp : List ℕ) (t : DateTime nought atoi)
      → Without b':' word
      → length tmp ≡ j
      → j + length word < 128
      → clock nought atoi (word ++ rest) x j tmp t
        ≡ clock nought atoi rest x (j + length word) (tmp ++ word) t
  unfolding clock
  clock-grown [] rest x j tmp t whole e room =
      let same : j + 0 ≡ j = omega arith in rw (same, append-nil tmp) refl
  clock-grown (c ∷ word) rest x j tmp t whole e room =
      let next : j + 1 + length word ≡ j + suc (length word) = omega arith in
      clock_step c (word ++ rest) x j tmp tmp t whole.0
        (ap (λ (i : ℕ). take i tmp) (sym e) ∙ take-length tmp) (omega arith)
      ∙ clock-grown word rest x (j + 1) (tmp ++ c ∷ []) t whole.1
          (length-append tmp (c ∷ []) ∙ ap (λ (i : ℕ). i + 1) e) (omega arith)
      ∙ ap (λ (i : ℕ). clock nought atoi rest x i ((tmp ++ c ∷ []) ++ word) t) next
      ∙ ap (λ (w : List ℕ). clock nought atoi rest x (j + suc (length word)) w t)
          (append_assoc tmp (c ∷ []) word)

  -- A part of the time that is not empty goes to `tmp` from its start.
  clock-part :
      (word rest : List ℕ) (x : ℕ) (tmp : List ℕ) (t : DateTime nought atoi)
      → Without b':' word
      → 0 < length word
      → length word < 128
      → clock nought atoi (word ++ rest) x 0 tmp t ≡ clock nought atoi rest x (length word) word t
  unfolding clock
  clock-part [] rest x tmp t whole full room = elim full [ ]
  clock-part (c ∷ word) rest x tmp t whole full room =
      let next : 1 + length word ≡ suc (length word) = omega arith in
      clock_step c (word ++ rest) x 0 tmp [] t whole.0 refl (omega arith)
      ∙ clock-grown word rest x 1 (c ∷ []) t whole.1 refl (omega arith)
      ∙ ap (λ (i : ℕ). clock nought atoi rest x i (c ∷ word) t) next

  clock_lem :
      (h m s : List ℕ) (t : DateTime nought atoi)
      → Without b':' h × Without b':' m × Without b':' s
      → (0 < length h) × (0 < length m) × (0 < length s)
      → (length h < 128) × (length m < 128) × (length s < 128)
      → clock nought atoi (h ++ (b':' ∷ m ++ (b':' ∷ s))) 0 0 [] t
        ≡ ok (record t { hour = atoi h; minute = atoi m; second = atoi s })
  unfolding clock
  clock_lem h m s t whole full room =
      let t1 = set_part nought atoi 0 (atoi h) t in
      let t2 = set_part nought atoi 1 (atoi m) t1 in
      clock-part h (b':' ∷ m ++ (b':' ∷ s)) 0 [] t whole.0 full.0 room.0
      ∙ clock-part m (b':' ∷ s) 1 h t1 whole.1 full.1 room.1
      ∙ ap (λ (w : List ℕ). clock nought atoi w 2 0 m t2) (sym (append-nil s))
      ∙ clock-part s [] 2 m t2 whole.2 full.2 room.2

  -- A line that starts with a month, a day and a time, between them one blank or more, is read
  -- as their numbers: for words without blanks that fit into the buffers of 128 bytes, and hours,
  -- minutes and seconds without colons, none of them empty; whatever stands behind a blank after
  -- the time.
  pub get_datatime_with_line_lem :
      (j k : ℕ) (month day h m s : List ℕ) {rest : List ℕ}
      → Tail rest
      → Without b' ' month × Without b' ' day × Without b' ' (stamp_of h m s)
      → Without b':' h × Without b':' m × Without b':' s
      → (0 < length day) × (0 < length h) × (0 < length m) × (0 < length s)
      → (length month < 128) × (length day < 128) × (length (stamp_of h m s) < 128)
      → get_datatime_with_line nought atoi (line_of j k month day (stamp_of h m s) rest)
        ≡ ok (record {
          month = conv_month_2_int month;
          day = atoi day;
          hour = atoi h;
          minute = atoi m;
          second = atoi s;
        })
  unfolding get_datatime_with_line
  get_datatime_with_line_lem j k month day h m s tail blanks whole full room =
      let w : Words = record { month = month; day = day; time = stamp_of h m s } in
      rw
        (scan-line_of j k month day (stamp_of h m s) tail blanks
          (full.0, omega (arith, length-stamp_of h m s)) room)
        (clock_lem h m s (started nought atoi w) whole (full.1, full.2, full.3)
          (
            omega (arith, length-stamp_of h m s),
            omega (arith, length-stamp_of h m s),
            omega (arith, length-stamp_of h m s),
          ))
