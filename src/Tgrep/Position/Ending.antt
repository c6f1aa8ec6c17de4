-- ===== src/Tgrep/Position/Ending.antt =====
-- c/app/tgrep/tgrep.c: the search for the end of an hour ends, and where.
use mathlib.Core.Path.{subst}
use code_notebook.Base.{
  ℕ, zero, suc, ◌+◌, ◌-◌, ◌/◌, ◌<◌, ◌≡◌, ◌⊎◌, inl, inr, refl, Bool, true, false, List, some, arith,
  true-ne-false, dec_lt, ◌∙◌, ap, sym, if-cases,
}
use code_notebook.Run.{Run, Ends, ends, Ends-weaken}
use code_notebook.Tgrep.Position.{
  Got, at_end, Search, LineTime, never_set, read_as, RetPos, second, round, search_loop, begin,
  get_pos,
}
use code_notebook.Tgrep.Position.Probes.{
  Parses, IsLog, Shows, shows, at_end_ne, ended, shown, Probe-of, finish-Ends, search_loop-round,
  search_loop-at_end,
}

module _ {I : Type 0} (nought : I) (atoi : List ℕ → I) (le : I → I → Bool) (fgets : ℕ → Got)
    (log : IsLog nought atoi le fgets) (match_hour : I) (size : ℕ) where
  -- The end of the file, or a place behind which the hour has passed.
  abbrev pub Behind : RetPos nought atoi → Type 0
  Behind r = (r.pos ≡ size) ⊎ Shows nought atoi le fgets match_hour r.pos true

  -- The search has gone forward only.
  record Climbs (st : Search) : Type 0 where
    at_size : st.e_pos ≡ size
    inside : st.c_pos < size
    was_last : st.matched_last ≡ true
    not_previous : st.matched_previous ≡ false

  -- The search has gone backward only.
  record Sinks (st : Search) : Type 0 where
    halves : st.c_pos ≡ st.e_pos / 2
    late_end : Shows nought atoi le fgets match_hour st.e_pos true
    was_previous : st.matched_previous ≡ true
    not_last : st.matched_last ≡ false

  Behind-of :
      (pos e_pos : ℕ)
      → (e_pos ≡ size) ⊎ Shows nought atoi le fgets match_hour e_pos true
      → Shows nought atoi le fgets match_hour pos true
      → (r : RetPos nought atoi) → (r.pos ≡ e_pos) ⊎ (r.pos ≡ pos)
      → Behind r
  Behind-of pos e_pos (inl at) late r (inl e) = inl (e ∙ at)
  Behind-of pos e_pos (inr at) late r (inl e) = inr (rw e at)
  Behind-of pos e_pos at late r (inr e) = inr (rw e late)

  climb_round :
      (late : Bool) (st : Search) (buf : List ℕ) (next : Search → Run (RetPos nought atoi))
      → Climbs st
      → st.c_pos + 1 < size
      → Shows nought atoi le fgets match_hour st.c_pos late
      → Parses nought atoi le fgets buf
      → ((st' : Search) → Climbs st' → st.c_pos < st'.c_pos → Ends Behind (next st'))
      → Ends Behind (round nought atoi le fgets true late st buf next)
  climb_round true st buf next up room seen parsed goes =
      if-cases (Ends Behind) st.matched_last
        (λ _.
          Ends-weaken (Behind-of st.c_pos st.e_pos (inl up.at_size) seen)
            (finish-Ends nought atoi le fgets log st.c_pos st.e_pos buf parsed))
        (λ e. absurd (true-ne-false up.was_last e))
  climb_round false st buf next up room seen parsed goes =
      if-cases (Ends Behind) st.matched_previous (λ e. absurd (true-ne-false e up.not_previous))
        (λ _.
          goes _
            (record {
              at_size = up.at_size;
              inside = omega (arith, up.at_size);
              was_last = refl;
              not_previous = up.not_previous;
            })
            (omega (arith, up.at_size)))

  sink_round :
      (late : Bool) (st : Search) (buf : List ℕ) (next : Search → Run (RetPos nought atoi))
      → Sinks st
      → (late ≡ true → 0 < st.c_pos)
      → Shows nought atoi le fgets match_hour st.c_pos late
      → Parses nought atoi le fgets buf
      → ((st' : Search) → Sinks st' → st'.c_pos < st.c_pos → Ends Behind (next st'))
      → Ends Behind (round nought atoi le fgets true late st buf next)
  sink_round true st buf next down room seen parsed goes =
      if-cases (Ends Behind) st.matched_last (λ e. absurd (true-ne-false e down.not_last))
        (λ _.
          goes _
            (record {
              halves = refl;
              late_end = seen;
              was_previous = refl;
              not_last = down.not_last;
            })
            (omega (arith, room refl)))
  sink_round false st buf next down room seen parsed goes =
      if-cases (Ends Behind) st.matched_previous
        (λ _.
          Ends-weaken (Behind-of st.e_pos st.e_pos (inr down.late_end) down.late_end)
            (finish-Ends nought atoi le fgets log st.e_pos st.e_pos buf parsed))
        (λ e. absurd (true-ne-false down.was_previous e))

  first_round :
      (late : Bool) (buf : List ℕ) (next : Search → Run (RetPos nought atoi))
      → 0 < size
      → Shows nought atoi le fgets match_hour (size / 2) late
      → ((st' : Search) → Sinks st' → st'.c_pos < size → Ends Behind (next st'))
      → ((st' : Search) → Climbs st' → Ends Behind (next st'))
      → Ends Behind
          (round nought atoi le fgets true late (begin nought atoi le fgets size) buf next)
  first_round true buf next some_size seen sinks climbs =
      sinks _ (record { halves = refl; late_end = seen; was_previous = refl; not_last = refl })
        (omega arith)
  first_round false buf next some_size seen sinks climbs =
      climbs _
        (record { at_size = refl; inside = omega arith; was_last = refl; not_previous = refl })

  module _ (short : second nought atoi le fgets (fgets (size - 1)) ≡ at_end) where
    not_short :
        (c : ℕ) (late : Bool)
        → c < size
        → Shows nought atoi le fgets match_hour c late
        → c + 1 < size
    not_short c late h (shows bytes after eof dt e p l) = elim (dec_lt (c + 1) size) [
      | yes q ↦ q
      | no q ↦
          (let same : c ≡ size - 1 = omega arith in
            absurd (
              at_end_ne
                (sym short ∙ ap (λ (i : ℕ). second nought atoi le fgets (fgets i)) (sym same) ∙ e)))
    ]

    climb-Ends :
        (fuel : ℕ) (st : Search) (dt : LineTime nought atoi)
        → Climbs st
        → size < fuel + st.c_pos
        → Ends Behind (search_loop nought atoi le fgets fuel true match_hour st dt)
    climb-Ends zero st dt up enough = absurd (omega (arith, up.inside))
    climb-Ends (suc fuel) st dt up enough =
        elim (Probe-of nought atoi le fgets log match_hour st.c_pos _ refl) [
          | ended e ↦
              rw (search_loop-at_end nought atoi le fgets true match_hour fuel st dt e)
                (ends (inl up.at_size))
          | shown late h ↦
              (let (buf, dt', parsed, e) =
                  search_loop-round nought atoi le fgets true match_hour fuel late st dt h in
                rw e (
                  climb_round late st buf _ up (not_short st.c_pos late up.inside h) h parsed
                    λ st' up' h'. climb-Ends fuel st' (read_as dt') up' (omega arith)))
        ]

  module _ (early : ¬ Shows nought atoi le fgets match_hour 0 true) where
    not_zero :
        (c : ℕ) (late : Bool) → Shows nought atoi le fgets match_hour c late → late ≡ true → 0 < c
    not_zero c late h e = elim (dec_lt 0 c) [
      | yes q ↦ q
      | no q ↦
          (let none : c ≡ 0 = omega arith in
            absurd (
              early (
                subst (λ (i : ℕ). Shows nought atoi le fgets match_hour i true) none
                  (subst (Shows nought atoi le fgets match_hour c) e h))))
    ]

    sink-Ends :
        (fuel : ℕ) (st : Search) (dt : LineTime nought atoi)
        → Sinks st
        → st.c_pos < fuel
        → Ends Behind (search_loop nought atoi le fgets fuel true match_hour st dt)
    sink-Ends zero st dt down enough = absurd (omega arith)
    sink-Ends (suc fuel) st dt down enough =
        elim (Probe-of nought atoi le fgets log match_hour st.c_pos _ refl) [
          | ended e ↦
              rw (search_loop-at_end nought atoi le fgets true match_hour fuel st dt e)
                (ends (inr down.late_end))
          | shown late h ↦
              (let (buf, dt', parsed, e) =
                  search_loop-round nought atoi le fgets true match_hour fuel late st dt h in
                rw e (
                  sink_round late st buf _ down (not_zero st.c_pos late h) h parsed
                    λ st' down' h'. sink-Ends fuel st' (read_as dt') down' (omega arith)))
        ]

    -- The search for the end of an hour ends, given more rounds than the file has bytes: in a log that
    -- is not empty and whose every line can be read, with no whole line behind the last byte, and
    -- whose second line does not show the hour or a later one. It leaves the end of the file, or a
    -- place behind which the first whole line shows the hour or a later one.
    pub get_pos-Ends :
        second nought atoi le fgets (fgets (size - 1)) ≡ at_end
        → 0 < size
        → (fuel : ℕ) → size < fuel
        → Ends Behind (get_pos nought atoi le fgets (suc fuel) size (some match_hour) true)
    unfolding get_pos
    get_pos-Ends short some_size fuel enough =
        let st = begin nought atoi le fgets size in
        elim (Probe-of nought atoi le fgets log match_hour (size / 2) _ refl) [
          | ended e ↦
              rw (search_loop-at_end nought atoi le fgets true match_hour fuel st never_set e)
                (ends (inl refl))
          | shown late h ↦
              (let (buf, dt', parsed, e) =
                  search_loop-round nought atoi le fgets true match_hour fuel late st never_set h in
                rw e (
                  first_round late buf _ some_size h
                    (λ st' down h'. sink-Ends fuel st' (read_as dt') down (omega arith))
                    (λ st' up. climb-Ends short fuel st' (read_as dt') up (omega arith))))
        ]
