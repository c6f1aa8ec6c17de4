-- ===== src/Scdb/Table/Tests.antt =====
-- A table of three entries, two of which have one home.
use code_notebook.Base.{ℕ, ◌≡◌, refl, List, [], ◌∷◌, length, arith}
use code_notebook.Run.{ok}
use code_notebook.Scdb.Make.{Hp}
use code_notebook.Scdb.Table.{free_cell, probe, home, place, place_all, table_of}
use code_notebook.Scdb.Table.View.{run_of, with_hash, view}
use code_notebook.Scdb.Table.Placed.{table_of-holds}

abbrev entries : List Hp
entries =
    record { h = 1285; p = 2048 } ∷ record { h = 1285; p = 2060 } ∷ record { h = 5; p = 2072 } ∷ []

table_of_test :
    table_of 6 entries
    ≡ ok (
        record { h = 1285; p = 2060 }
        ∷ record { h = 5; p = 2072 }
        ∷ free_cell
        ∷ free_cell
        ∷ free_cell
        ∷ record { h = 1285; p = 2048 }
        ∷ [])
unfolding table_of place_all place probe
table_of_test = refl

table_of-holds_example :
    (cells : List Hp) × (table_of 6 entries ≡ ok cells)
    × (length cells ≡ 6)
    × ((h : ℕ) → with_hash h (run_of (view (home (length cells) h) cells)) ≡ with_hash h entries)
table_of-holds_example = table_of-holds 6 entries (refl, (refl, (refl, tt))) (omega arith)
