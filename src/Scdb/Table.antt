-- ===== src/Scdb/Table.antt =====
-- The table that scdb_make_finish fills for the keys whose hashes end in the same byte: `hash` is
-- the list of its `len` cells, and a cell with p = 0 is free.
pub mod View
pub mod Fill
pub mod Placed
mod Tests
use code_notebook.Base.{
  ℕ, zero, suc, ◌+◌, ◌/◌, ◌%◌, ◌^◌, List, [], ◌∷◌, Option, none, some, ◌==◌, if◌then◌else◌, length,
  get_elem?, set, replicate,
}
use code_notebook.Run.{Run, ok, fault, out_of_fuel, ◌>>=◌}
use code_notebook.Scdb.Make.{Hp}

abbrev pub free_cell : Hp
free_cell = record { h = 0; p = 0 }

-- while (c->hash[where].p), with one unit of fuel for each turn
pub probe : ℕ → List Hp → ℕ → Run ℕ
probe zero hash where_ = out_of_fuel
probe (suc fuel) hash where_ =
    let next = probe fuel hash (if where_ + 1 == length hash then 0 else where_ + 1) in
    elim (get_elem? hash where_) [
      | none ↦ fault
      | some cell ↦ if cell.p == 0 then ok where_ else next
    ]

-- where = (hp->h >> 8) % len
abbrev pub home : ℕ → ℕ → ℕ
home len h = h / 2 ^ 8 % len

-- c->hash[where] = *hp++
pub place : List Hp → Hp → Run (List Hp)
unfolding probe
place hash hp =
    probe (length hash + 1) hash (home (length hash) hp.h) >>= λ where_. ok (set hash where_ hp)

pub place_all : List Hp → List Hp → Run (List Hp)
unfolding place
place_all hash [] = ok hash
place_all hash (hp ∷ rest) = place hash hp >>= λ hash'. place_all hash' rest

-- `for (u = 0; u < len; ++u) c->hash[u].h = c->hash[u].p = 0`, and then the loop over the entries
pub table_of : ℕ → List Hp → Run (List Hp)
unfolding place_all
table_of len hps = place_all (replicate len free_cell) hps
