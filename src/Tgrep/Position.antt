-- ===== src/Tgrep/Position.antt =====
-- c/app/tgrep/tgrep.c: the search for the place in a log where an hour starts or ends. What fgets
-- reads at a place of the file is a parameter, and so are `atoi` and the order of its numbers.
pub mod Probes
pub mod Ending
pub mod Hanging
mod Tests
use code_notebook.Base.{
  ℕ, zero, suc, ◌+◌, ◌-◌, ◌/◌, Bool, true, false, List, Option, none, some, ltb, if◌then◌else◌,
}
use code_notebook.Run.{Run, ok, out_of_fuel, ◌>>=◌}
use code_notebook.Tgrep.Times.{DateTime, get_datatime_with_line}

-- What fgets gives at a place: a line, the place behind it, and whether the file ended in it; or
-- NULL at the end.
pub data Got : Type 0 where
  line : List ℕ → ℕ → Bool → Got
  at_end : Got

pub record Search : Type 0 where
  pub s_pos : ℕ
  pub e_pos : ℕ
  pub c_pos : ℕ
  pub matched_previous : Bool
  pub matched_last : Bool
  pub change_times : ℕ

-- The time in `ret_pos`: not set, with hour and minute -1, or read from a line.
pub data LineTime {I : Type 0} (nought : I) (atoi : List ℕ → I) : Type 0 where
  never_set minus_one : LineTime nought atoi
  read_as : DateTime nought atoi → LineTime nought atoi

-- What the search leaves in `ret_pos`, and returns.
pub record RetPos {I : Type 0} (nought : I) (atoi : List ℕ → I) : Type 0 where
  pub pos : ℕ
  pub line_dt : LineTime nought atoi
  pub result : ℕ

module _ {I : Type 0} (nought : I) (atoi : List ℕ → I) (le : I → I → Bool) (fgets : ℕ → Got) where
  -- The second of two calls of fgets, from a place on.
  abbrev pub second : Got → Got
  second at_end = at_end
  second (line bytes after true) = at_end
  second (line bytes after false) = fgets after

  -- The buffer after a call of fgets.
  abbrev pub buffer : Got → List ℕ → List ℕ
  buffer at_end buf = buf
  buffer (line bytes after eof) buf = bytes

  abbrev pub is_eof : Got → Bool
  is_eof at_end = true
  is_eof (line bytes after eof) = eof

  -- `break` with a position: the time of the line there, and after the loop the test of feof.
  abbrev pub finish : ℕ → ℕ → List ℕ → Run (RetPos nought atoi)
  finish pos e_pos buf =
      let got = second (fgets pos) in
      get_datatime_with_line nought atoi (buffer got (buffer (fgets pos) buf)) >>= λ dt.
      if is_eof got
      then ok (record { pos = e_pos; line_dt = read_as dt; result = 0 })
      else ok (record { pos = pos; line_dt = read_as dt; result = 1 })

  abbrev pub backward : Search → ℕ → Search
  backward st changes = record st {
    e_pos = st.c_pos;
    c_pos = st.c_pos / 2;
    matched_previous = true;
    matched_last = false;
    change_times = changes;
  }

  abbrev pub forward : Search → ℕ → Search
  forward st changes = record st {
    s_pos = st.c_pos;
    c_pos = (st.e_pos - st.c_pos) / 2 + st.c_pos;
    matched_previous = false;
    matched_last = true;
    change_times = changes;
  }

  -- A round of the search for the start; `late` says that the line has the hour or a later one.
  abbrev pub start_round :
      Bool → Search → List ℕ → (Search → Run (RetPos nought atoi)) → Run (RetPos nought atoi)
  start_round true st buf next =
      let changes = if st.matched_last then st.change_times + 1 else st.change_times in
      if ltb 1 changes then finish st.s_pos st.e_pos buf else next (backward st changes)
  start_round false st buf next =
      let changes = if st.matched_previous then st.change_times + 1 else st.change_times in
      if ltb 1 changes then finish st.s_pos st.e_pos buf else next (forward st changes)

  -- A round of the search for the end, which leaves the other flag as it was.
  abbrev pub end_round :
      Bool → Search → List ℕ → (Search → Run (RetPos nought atoi)) → Run (RetPos nought atoi)
  end_round true st buf next =
      if st.matched_last
      then finish st.c_pos st.e_pos buf
      else next (record (backward st st.change_times) { matched_last = st.matched_last })
  end_round false st buf next =
      if st.matched_previous
      then finish st.e_pos st.e_pos buf
      else next (record (forward st st.change_times) { matched_previous = st.matched_previous })

  abbrev pub round :
      Bool → Bool → Search → List ℕ → (Search → Run (RetPos nought atoi)) → Run (RetPos nought atoi)
  round false late st buf next = start_round late st buf next
  round true late st buf next = end_round late st buf next

  -- The body of the loop, for what the second fgets gave.
  abbrev pub on_line :
      Got
      → Bool
      → I
      → Search
      → LineTime nought atoi
      → (Search → DateTime nought atoi → List ℕ → Run (RetPos nought atoi))
      → Run (RetPos nought atoi)
  on_line at_end flag match_hour st dt next =
      ok (record { pos = st.e_pos; line_dt = dt; result = 0 })
  on_line (line bytes after eof) flag match_hour st dt next =
      get_datatime_with_line nought atoi bytes >>= λ dt'.
      round flag (le match_hour dt'.hour) st bytes (λ st'. next st' dt' bytes)

  pub search_loop : ℕ → Bool → I → Search → LineTime nought atoi → Run (RetPos nought atoi)
  search_loop zero flag match_hour st dt = out_of_fuel
  search_loop (suc fuel) flag match_hour st dt =
      on_line (second (fgets st.c_pos)) flag match_hour st dt
        (λ st' dt' bytes. search_loop fuel flag match_hour st' (read_as dt'))

  abbrev pub begin : ℕ → Search
  begin size = record {
    s_pos = 0;
    e_pos = size;
    c_pos = size / 2;
    matched_previous = false;
    matched_last = false;
    change_times = 0;
  }

  -- `flag` is true in the search for the end; no hour is -1. The file can be opened.
  pub get_pos : ℕ → ℕ → Option I → Bool → Run (RetPos nought atoi)
  unfolding search_loop
  get_pos fuel size none flag =
      ok (record { pos = if flag then size else 0; line_dt = minus_one; result = 1 })
  get_pos fuel size (some match_hour) flag = search_loop fuel flag match_hour (begin size) never_set
