-- ===== src/Tgrep/Position/Hanging.antt =====
-- c/app/tgrep/tgrep.c: a search that does not end.
use code_notebook.Base.{
  ℕ, zero, suc, ◌+◌, ◌/◌, ◌≤◌, ◌≡◌, refl, Bool, true, false, List, some, arith, true-ne-false, ◌∙◌,
  ltb→lt, ltb, if◌then◌else◌, if-cases,
}
use code_notebook.Run.{Run, out_of_fuel}
use code_notebook.Tgrep.Position.{
  Got, Search, LineTime, never_set, read_as, RetPos, round, search_loop, begin, get_pos,
}
use code_notebook.Tgrep.Position.Probes.{Shows, search_loop-round}

module _ {I : Type 0} (nought : I) (atoi : List ℕ → I) (le : I → I → Bool) (fgets : ℕ → Got)
    (flag : Bool) (match_hour : I) (size : ℕ) where
  -- Every line so far was late.
  record Stays (st : Search) : Type 0 where
    first_half : st.c_pos ≤ size / 2
    not_last : st.matched_last ≡ false
    no_change : st.change_times ≡ 0

  stay_round :
      (f : Bool) (st : Search) (buf : List ℕ) (next : Search → Run (RetPos nought atoi))
      → Stays st
      → ((st' : Search) → Stays st' → next st' ≡ out_of_fuel)
      → round nought atoi le fgets f true st buf next ≡ out_of_fuel
  stay_round false st buf next s goes =
      let changes : ℕ = if st.matched_last then st.change_times + 1 else st.change_times in
      let none : changes ≡ 0 =
        if-cases (λ (n : ℕ). n ≡ 0) st.matched_last (λ e. absurd (true-ne-false e s.not_last))
          (λ _. s.no_change) in
      if-cases (λ (r : Run (RetPos nought atoi)). r ≡ out_of_fuel) (ltb 1 changes)
        (λ e. absurd (omega (arith, none, ltb→lt 1 changes e)))
        (λ _.
          goes _ (record {
            first_half = omega (arith, s.first_half);
            not_last = refl;
            no_change = none;
          }))
  stay_round true st buf next s goes =
      if-cases (λ (r : Run (RetPos nought atoi)). r ≡ out_of_fuel) st.matched_last
        (λ e. absurd (true-ne-false e s.not_last))
        (λ _. goes _ (record {
          first_half = omega (arith, s.first_half);
          not_last = s.not_last;
          no_change = s.no_change;
        }))

  module _ (late : (c : ℕ) → c ≤ size / 2 → Shows nought atoi le fgets match_hour c true) where
    loop_hangs :
        (fuel : ℕ) (st : Search) (dt : LineTime nought atoi)
        → Stays st
        → search_loop nought atoi le fgets fuel flag match_hour st dt ≡ out_of_fuel
    unfolding search_loop
    loop_hangs zero st dt s = refl
    loop_hangs (suc fuel) st dt s =
        let (buf, dt', parsed, e) =
          search_loop-round nought atoi le fgets flag match_hour fuel true st dt
            (late st.c_pos s.first_half) in
        e ∙ stay_round flag st buf _ s (λ st' s'. loop_hangs fuel st' (read_as dt') s')

    -- Both searches for an hour loop for ever in a log of which every whole line that follows a place
    -- of its first half shows that hour or a later one, so also the second line: no number of
    -- rounds is enough.
    pub get_pos_hangs :
        (fuel : ℕ) → get_pos nought atoi le fgets fuel size (some match_hour) flag ≡ out_of_fuel
    unfolding get_pos
    get_pos_hangs fuel =
        loop_hangs fuel (begin nought atoi le fgets size) never_set
          (record { first_half = omega arith; not_last = refl; no_change = refl })
