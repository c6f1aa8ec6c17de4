-- ===== src/Scdb/Index/Written.antt =====
-- The tables as they are written behind the records.
use mathlib.Core.Path.{subst}
use mathlib.Core.List.{append_assoc, append-nil}
use code_notebook.Base.{
  ℕ, ◌+◌, ◌*◌, ◌%◌, ◌^◌, ◌≤◌, ◌<◌, ◌≡◌, refl, sym, ap, ◌∙◌, true, List, [], ◌∷◌, ◌++◌, arith, leb,
  ◌==◌, if◌then◌else◌, length, length-append,
}
use code_notebook.Run.{Run, ok, Ends, ends, Ends-bind, Ends-weaken}
use code_notebook.Scdb.Pack.{uint32_pack, length-uint32_pack}
use code_notebook.Scdb.Buffer.{Buffer}
use code_notebook.Scdb.Buffer.Writes.{credit, breaks, held, IsValid, Put, put, cut, putalign-Put}
use code_notebook.Scdb.Make.{Hp, Make, posplus}
use code_notebook.Scdb.Make.Records.{posplus-ok}
use code_notebook.Scdb.Table.{table_of}
use code_notebook.Scdb.Table.Placed.{AllUsed, table_of-holds}
use code_notebook.Scdb.Index.{cell_bytes, write_cells, Indexed, entries_at, filled, write_tables}

-- The bytes of all cells of a table.
pub table_bytes : List Hp → List ℕ
table_bytes [] = []
table_bytes (hp ∷ hash) = cell_bytes hp ++ table_bytes hash

length-cell_bytes : (hp : Hp) → length (cell_bytes hp) ≡ 8
unfolding cell_bytes
length-cell_bytes hp = omega (
  arith,
  length-append (uint32_pack hp.h) (uint32_pack hp.p),
  length-uint32_pack hp.h,
  length-uint32_pack hp.p,
)

pub length-table_bytes : (hash : List Hp) → length (table_bytes hash) ≡ 8 * length hash
unfolding table_bytes
length-table_bytes [] = refl
length-table_bytes (hp ∷ hash) = omega (
  arith,
  length-append (cell_bytes hp) (table_bytes hash),
  length-cell_bytes hp,
  length-table_bytes hash,
)

-- What stands in the buffer and where the next byte goes agree with `bytes` more; or a write failed.
pub data Filed (c : Make) (bytes : List ℕ) : ℕ × Make → Type 0 where
  filed :
      (c' : Make)
      → IsValid c'.b
      → held c'.b ≡ held c.b ++ bytes
      → c'.pos ≡ c.pos + length bytes
      → credit c.b.answers + c'.b.p ≤ credit c'.b.answers + c.b.p + length bytes
      → (breaks c'.b.answers ≡ true → breaks c.b.answers ≡ true)
      → Filed c bytes (0, c')
  not_filed : (c' : Make) → breaks c.b.answers ≡ true → Filed c bytes (1, c')

then-Filed :
    (c c' : Make) (a bytes : List ℕ)
    → held c'.b ≡ held c.b ++ a
    → c'.pos ≡ c.pos + length a
    → credit c.b.answers + c'.b.p ≤ credit c'.b.answers + c.b.p + length a
    → (breaks c'.b.answers ≡ true → breaks c.b.answers ≡ true)
    → (r : ℕ × Make) → Filed c' bytes r
    → Filed c (a ++ bytes) r
then-Filed c c' a bytes text place spent kept r (filed d valid text' place' spent' kept') =
    filed d valid (text' ∙ ap (λ (t : List ℕ). t ++ bytes) text ∙ append_assoc (held c.b) a bytes)
      (omega (arith, place, place', length-append a bytes))
      (omega (arith, spent, spent', length-append a bytes)) (λ e. kept (kept' e))
then-Filed c c' a bytes text place spent kept r (not_filed d bad) = not_filed d (kept bad)

-- The cells behind the first one.
cell-Filed :
    (c : Make) (hp : Hp) (hash : List Hp)
    → c.pos + 8 + 8 * length hash < 2 ^ 32
    → c.b.p + 8 + 8 * length hash ≤ credit c.b.answers
    → ((d : Make)
        → IsValid d.b
        → d.pos + 8 * length hash < 2 ^ 32
        → d.b.p + 8 * length hash ≤ credit d.b.answers
        → Ends (Filed d (table_bytes hash)) (write_cells hash d))
    → (r : ℕ × Buffer) → Put c.b (cell_bytes hp) r
    → Ends (Filed c (cell_bytes hp ++ table_bytes hash)) (
        let placed = posplus (record c { b = r.1 }) 8 in
        let next : Run (ℕ × Make) =
          if placed.0 == 0 then write_cells hash placed.1 else ok (1, placed.1) in
        if r.0 == 0 then next else ok (1, record c { b = r.1 }))
cell-Filed c hp hash small patience next r (cut b left bad split) = ends (not_filed _ bad)
cell-Filed c hp hash small patience next r (put b valid text spent kept) =
    let d = record c { b = b; pos = c.pos + 8 } in
    let eight = length-cell_bytes hp in
    rw (posplus-ok (record c { b = b }) 8 (omega arith)) (
      Ends-weaken
        (λ r.
          then-Filed c d (cell_bytes hp) (table_bytes hash) text (omega (arith, eight)) spent kept
            r)
        (next d valid (omega arith) (omega (arith, spent, eight))))

write_cells-Filed :
    (hash : List Hp) (c : Make)
    → IsValid c.b
    → c.pos + 8 * length hash < 2 ^ 32
    → c.b.p + 8 * length hash ≤ credit c.b.answers
    → Ends (Filed c (table_bytes hash)) (write_cells hash c)
unfolding write_cells table_bytes
write_cells-Filed [] c valid small patience =
    ends (filed c valid (sym (append-nil (held c.b))) (omega arith) (omega arith) (λ e. e))
write_cells-Filed (hp ∷ hash) c valid small patience =
    Ends-bind
      (cell-Filed c hp hash (omega arith) (omega arith)
        (λ d fine below left. write_cells-Filed hash d fine below left))
      (putalign-Put c.b (cell_bytes hp) valid (omega (arith, length-cell_bytes hp)))

-- The parts of c->split that the tables get, each with its entries.
pub data Parts (size : ℕ) (split : List Hp) : List ℕ → List ℕ → List (List Hp) → Type 0 where
  no_parts : (start : List ℕ) → Parts size split [] start []
  part_of :
      (n s : ℕ) (count start : List ℕ) (hps : List Hp) (groups : List (List Hp))
      → entries_at split s n ≡ ok hps
      → length hps ≡ n
      → AllUsed hps
      → n + n ≤ size
      → Parts size split count start groups
      → Parts size split (n ∷ count) (s ∷ start) (hps ∷ groups)

-- Tables of twice as many cells as entries, one behind the other from `pos` on: their bytes, and
-- the bytes that say where each is and how many cells it has.
pub data Tables : ℕ → List (List Hp) → List ℕ → List ℕ → Type 0 where
  no_tables : (pos : ℕ) → Tables pos [] [] []
  table :
      (pos : ℕ) (hps hash : List Hp) (groups : List (List Hp)) (bytes final : List ℕ)
      → table_of (2 * length hps) hps ≡ ok hash
      → length hash ≡ 2 * length hps
      → Tables (pos + length (table_bytes hash)) groups bytes final
      → Tables pos
          (hps ∷ groups)
          (table_bytes hash ++ bytes)
          ((uint32_pack pos ++ uint32_pack (2 * length hps)) ++ final)

-- How many bytes the tables of the entries take.
abbrev pub room_for : List (List Hp) → ℕ
room_for [] = 0
room_for (hps ∷ groups) = 16 * length hps + room_for groups

pub data Tabled (c : Make) (groups : List (List Hp)) (before : List ℕ) : Indexed → Type 0 where
  tabled :
      (i : Indexed) (bytes final : List ℕ)
      → i.status ≡ 0
      → Tables c.pos groups bytes final
      → i.final ≡ before ++ final
      → IsValid i.make.b
      → held i.make.b ≡ held c.b ++ bytes
      → credit c.b.answers + i.make.b.p ≤ credit i.make.b.answers + c.b.p + length bytes
      → (breaks i.make.b.answers ≡ true → breaks c.b.answers ≡ true)
      → Tabled c groups before i
  not_tabled : (i : Indexed) → i.status ≡ 1 → breaks c.b.answers ≡ true → Tabled c groups before i

then-Tabled :
    (c d : Make) (before : List ℕ) (hps hash : List Hp) (groups : List (List Hp))
    → table_of (2 * length hps) hps ≡ ok hash
    → length hash ≡ 2 * length hps
    → held d.b ≡ held c.b ++ table_bytes hash
    → d.pos ≡ c.pos + length (table_bytes hash)
    → credit c.b.answers + d.b.p ≤ credit d.b.answers + c.b.p + length (table_bytes hash)
    → (breaks d.b.answers ≡ true → breaks c.b.answers ≡ true)
    → (i : Indexed)
    → Tabled d groups (before ++ (uint32_pack c.pos ++ uint32_pack (2 * length hps))) i
    → Tabled c (hps ∷ groups) before i
then-Tabled c d before hps hash groups made cells text place spent kept i
      (not_tabled _ failed bad) =
    not_tabled i failed (kept bad)
then-Tabled c d before hps hash groups made cells text place spent kept i
      (tabled _ bytes final done tables ends_in valid text' spent' kept') =
    let entry = uint32_pack c.pos ++ uint32_pack (2 * length hps) in
    tabled i (table_bytes hash ++ bytes) (entry ++ final) done
      (table c.pos hps hash groups bytes final made cells
        (subst (λ (p : ℕ). Tables p groups bytes final) place tables))
      (ends_in ∙ append_assoc before entry final) valid
      (text'
        ∙ ap (λ (t : List ℕ). t ++ bytes) text
        ∙ append_assoc (held c.b) (table_bytes hash) bytes)
      (omega (arith, spent, spent', length-append (table_bytes hash) bytes)) (λ e. kept (kept' e))

-- The tables behind the first one.
table-Tabled :
    (size : ℕ) (split : List Hp) (count start : List ℕ) (c : Make) (before : List ℕ)
    (hps hash : List Hp) (groups : List (List Hp))
    → table_of (2 * length hps) hps ≡ ok hash
    → length hash ≡ 2 * length hps
    → c.pos + (16 * length hps + room_for groups) < 2 ^ 32
    → c.b.p + (16 * length hps + room_for groups) ≤ credit c.b.answers
    → (next : (d : Make) (final : List ℕ)
        → IsValid d.b
        → d.pos + room_for groups < 2 ^ 32
        → d.b.p + room_for groups ≤ credit d.b.answers
        → Ends (Tabled d groups final) (write_tables size split count start final d))
    → (r : ℕ × Make) → Filed c (table_bytes hash) r
    → let final = before ++ (uint32_pack c.pos ++ uint32_pack (2 * length hps)) in
      Ends (Tabled c (hps ∷ groups) before) (
        if r.0 == 0
        then write_tables size split count start final r.1
        else ok (record { status = 1; make = r.1; final = final }))
table-Tabled size split count start c before hps hash groups made cells small patience next r
      (not_filed d bad) =
    ends (not_tabled _ refl bad)
table-Tabled size split count start c before hps hash groups made cells small patience next r
      (filed d valid text place spent kept) =
    let entry = uint32_pack c.pos ++ uint32_pack (2 * length hps) in
    let long = length-table_bytes hash in
    Ends-weaken (then-Tabled c d before hps hash groups made cells text place spent kept) (
      next d (before ++ entry) valid (omega (arith, place, long, cells))
        (omega (arith, spent, long, cells)))

filled_lem :
    (size len : ℕ) (hps hash : List Hp)
    → len ≤ size
    → table_of len hps ≡ ok hash
    → filled size len hps ≡ ok hash
unfolding filled
filled_lem size len hps hash h made =
    let inside : leb len size ≡ true = ground arith in rw inside made

-- The loop of scdb_make_finish over the tables, on entries that have a place in the file and parts
-- that lie in c->split, with tables that fit into c->hash and a file that stays below 2 ^ 32 bytes,
-- when the calls of `op` are not interrupted for ever, ends inside the two arrays. Behind what was
-- written it puts the filled table of each part, in order, and for each its place and its size go
-- into c->final; or a write has failed.
pub write_tables-Tabled :
    (size : ℕ) (split : List Hp) (count start : List ℕ) (groups : List (List Hp)) (before : List ℕ)
    (c : Make)
    → Parts size split count start groups
    → IsValid c.b
    → c.pos + room_for groups < 2 ^ 32
    → c.b.p + room_for groups ≤ credit c.b.answers
    → Ends (Tabled c groups before) (write_tables size split count start before c)
unfolding write_tables
write_tables-Tabled size split [] start groups before c (no_parts _) valid small patience = ends (
    tabled _ [] [] refl (no_tables c.pos) (sym (append-nil before)) valid
      (sym (append-nil (held c.b))) (omega arith) (λ e. e))
write_tables-Tabled size split count start groups before c
      (part_of n s count' start' hps groups' found number full fits parts) valid small patience =
    let twice : (n + n) % 2 ^ 32 ≡ 2 * length hps = omega (arith, number, small) in
    let (hash, made, cells, _) = table_of-holds (2 * length hps) hps full (omega arith) in
    let fit : filled size (2 * length hps) hps ≡ ok hash =
      filled_lem size (2 * length hps) hps hash (omega (arith, number, fits)) made in
    rw (found, twice, fit)
      (Ends-bind
        (table-Tabled size split count' start' c before hps hash groups' made cells small patience
          (λ d final fine below left.
            write_tables-Tabled size split count' start' groups' final d parts fine below left))
        (write_cells-Filed hash c valid (omega (arith, cells, small))
          (omega (arith, cells, patience))))
