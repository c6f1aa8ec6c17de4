-- ===== src/Scdb/Index/Tests.antt =====
-- Three entries of two slots in two nodes of the list.
use code_notebook.Base.{
  true, ℕ, ◌<◌, ◌≡◌, refl, List, [], ◌∷◌, arith, get_or, replicate, zero, suc, Option, none, some,
  length, length-replicate, ap, sym, ◌∙◌,
}
use code_notebook.Run.{ok, Ends}
use code_notebook.Scdb.Buffer.{moved}
use code_notebook.Scdb.Buffer.Writes.{credit}
use code_notebook.Scdb.Make.{Hp, Make}
use code_notebook.Scdb.Make.Records.{entries}
use code_notebook.Scdb.Table.{free_cell}
use code_notebook.Scdb.Index.{
  visited, no_counts, count_all, starts_from, split_all, entries_at, finish,
}
use code_notebook.Scdb.Index.Split.{in_slot}
use code_notebook.Scdb.Index.Finish.{slots_from, Done}
use code_notebook.Scdb.Index.Whole.{finish-Done}
use code_notebook.Scdb.Index.Grouped.{split_all-groups}

abbrev first : Hp
first = record { h = 261; p = 2048 }

abbrev second : Hp
second = record { h = 260; p = 2060 }

abbrev third : Hp
third = record { h = 5; p = 2072 }

abbrev nodes : List (List Hp)
nodes = (third ∷ []) ∷ (first ∷ second ∷ []) ∷ []

split_test :
    (split_all (visited nodes) (5 ∷ 5 ∷ 5 ∷ 5 ∷ 1 ∷ 3 ∷ []) (replicate 3 free_cell))
    ≡ ok (5 ∷ 5 ∷ 5 ∷ 5 ∷ 0 ∷ 1 ∷ [], second ∷ first ∷ third ∷ [])
unfolding split_all visited
split_test = refl

split_all-groups_example :
    Ends
      (λ r.
        (i : ℕ)
        → i < 256
        → entries_at r.1 (get_or r.0 i 0) (get_or (count_all (visited nodes) no_counts) i 0)
          ≡ ok (in_slot i (entries nodes)))
      (split_all
        (visited nodes)
        (starts_from 0 (count_all (visited nodes) no_counts))
        (replicate 3 free_cell))
unfolding entries
split_all-groups_example =
    split_all-groups nodes (replicate 3 free_cell) (omega arith) (omega arith)

-- One byte of the block is used, and each call of `op` takes four bytes.
abbrev half_made : Make
half_made = record {
  head = nodes;
  numentries = 3;
  b = record { x = 7 ∷ 0 ∷ 0 ∷ []; p = 1; n = 3; sent = []; answers = replicate 2100 (moved 3) };
  pos = 2084;
}

abbrev ample : ℕ → Option (List Hp)
ample n = some (replicate n free_cell)

ample_right : (n : ℕ) (block : List Hp) → ample n ≡ some block → length block ≡ n
ample_right n block e =
    let same : replicate n free_cell ≡ block = cc in
    ap length (sym same) ∙ length-replicate n free_cell

credit_moved : (n : ℕ) → credit (replicate n (moved 3)) ≡ n
unfolding credit
credit_moved zero = refl
credit_moved (suc n) = ap suc (credit_moved n)

finish-Done_example :
    Ends
      (Done half_made (slots_from 0 256 (entries nodes)) true ((n : ℕ) × (ample n ≡ none)))
      (finish ample true half_made)
unfolding entries
finish-Done_example =
    finish-Done half_made refl (omega arith) (refl, (refl, (refl, tt)))
      (omega arith, omega arith, omega arith) (omega arith) (omega (arith, credit_moved 2100)) ample
      ample_right true
