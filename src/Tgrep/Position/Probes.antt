-- ===== src/Tgrep/Position/Probes.antt =====
-- c/app/tgrep/tgrep.c: what the search sees at a place of a log.
use code_notebook.Base.{ℕ, suc, ◌≡◌, ◌⊎◌, inl, inr, refl, Bool, true, false, List, if◌then◌else◌}
use code_notebook.Run.{Run, ok, Ends, ends, ◌>>=◌}
use code_notebook.Tgrep.Times.{DateTime, get_datatime_with_line}
use code_notebook.Tgrep.Position.{
  Got, line, at_end, Search, LineTime, read_as, RetPos, second, buffer, finish, round, search_loop,
}

pub at_end_ne : {bytes : List ℕ} {after : ℕ} {eof : Bool} → at_end ≡ line bytes after eof → ⊥
at_end_ne e = cc

module _ {I : Type 0} (nought : I) (atoi : List ℕ → I) (le : I → I → Bool) (fgets : ℕ → Got) where
  -- The line can be read as a time.
  abbrev pub Parses : List ℕ → Type 0
  Parses bytes = (dt : DateTime nought atoi) × (get_datatime_with_line nought atoi bytes ≡ ok dt)

  -- Every line of the file can.
  abbrev pub IsLog : Type 0
  IsLog =
      (c : ℕ) (bytes : List ℕ) (after : ℕ) (eof : Bool)
      → fgets c ≡ line bytes after eof
      → Parses bytes

  -- The first whole line behind a place has an hour that `le` puts as `late` says.
  pub data Shows (match_hour : I) (c : ℕ) (late : Bool) : Type 0 where
    shows :
        (bytes : List ℕ) (after : ℕ) (eof : Bool) (dt : DateTime nought atoi)
        → second nought atoi le fgets (fgets c) ≡ line bytes after eof
        → get_datatime_with_line nought atoi bytes ≡ ok dt
        → le match_hour dt.hour ≡ late
        → Shows match_hour c late

  pub data Probe (match_hour : I) (c : ℕ) : Type 0 where
    ended : second nought atoi le fgets (fgets c) ≡ at_end → Probe match_hour c
    shown : (late : Bool) → Shows match_hour c late → Probe match_hour c

  module _ (log : IsLog) where
    second-Parses :
        (got : Got) (bytes : List ℕ) (after : ℕ) (eof : Bool)
        → second nought atoi le fgets got ≡ line bytes after eof
        → Parses bytes
    second-Parses at_end bytes after eof e = absurd (at_end_ne e)
    second-Parses (line b c true) bytes after eof e = absurd (at_end_ne e)
    second-Parses (line b c false) bytes after eof e = log c bytes after eof e

    pub Probe-of :
        (match_hour : I) (c : ℕ) (got : Got)
        → second nought atoi le fgets (fgets c) ≡ got
        → Probe match_hour c
    Probe-of match_hour c at_end e = ended e
    Probe-of match_hour c (line bytes after eof) e =
        let (dt, parsed) = second-Parses (fgets c) bytes after eof e in
        shown (le match_hour dt.hour) (shows bytes after eof dt e parsed refl)

    buffer-Parses :
        (got : Got) (buf : List ℕ)
        → ((bytes : List ℕ) (after : ℕ) (eof : Bool) → got ≡ line bytes after eof → Parses bytes)
        → Parses buf
        → Parses (buffer nought atoi le fgets got buf)
    buffer-Parses at_end buf reads h = h
    buffer-Parses (line bytes after eof) buf reads h = reads bytes after eof refl

    finish_value :
        (pos e_pos : ℕ) (eof : Bool) (call : Run (DateTime nought atoi))
        → (dt : DateTime nought atoi) × (call ≡ ok dt)
        → Ends
            (λ (r : RetPos nought atoi). (r.pos ≡ e_pos) ⊎ (r.pos ≡ pos))
            (call >>= λ dt.
              if eof
              then ok (record { pos = e_pos; line_dt = read_as dt; result = 0 })
              else ok (record { pos = pos; line_dt = read_as dt; result = 1 }))
    finish_value pos e_pos true call (dt, e) = rw e (ends (inl refl))
    finish_value pos e_pos false call (dt, e) = rw e (ends (inr refl))

    pub finish-Ends :
        (pos e_pos : ℕ) (buf : List ℕ)
        → Parses buf
        → Ends
            (λ (r : RetPos nought atoi). (r.pos ≡ e_pos) ⊎ (r.pos ≡ pos))
            (finish nought atoi le fgets pos e_pos buf)
    finish-Ends pos e_pos buf h = finish_value pos e_pos _ _ (
        buffer-Parses (second nought atoi le fgets (fgets pos)) _ (second-Parses (fgets pos))
          (buffer-Parses (fgets pos) buf (log pos) h))

  module _ (flag : Bool) (match_hour : I) where
    -- One round at a place that shows a line.
    pub search_loop-round :
        (fuel : ℕ) (late : Bool) (st : Search) (dt : LineTime nought atoi)
        → Shows match_hour st.c_pos late
        → (bytes : List ℕ) × (dt' : DateTime nought atoi) × Parses bytes
          × (search_loop nought atoi le fgets (suc fuel) flag match_hour st dt
              ≡ round nought atoi le fgets flag late st bytes
                  (λ st'. search_loop nought atoi le fgets fuel flag match_hour st' (read_as dt')))
    unfolding search_loop
    search_loop-round fuel late st dt (shows bytes after eof dt' e p l) =
        (bytes, dt', (dt', p), rw (e, search_loop) (rw p (rw l refl)))

    pub search_loop-at_end :
        (fuel : ℕ) (st : Search) (dt : LineTime nought atoi)
        → second nought atoi le fgets (fgets st.c_pos) ≡ at_end
        → search_loop nought atoi le fgets (suc fuel) flag match_hour st dt
          ≡ ok (record { pos = st.e_pos; line_dt = dt; result = 0 })
    unfolding search_loop
    search_loop-at_end fuel st dt e = rw (e, search_loop) refl
