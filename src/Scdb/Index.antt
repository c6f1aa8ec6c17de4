-- ===== src/Scdb/Index.antt =====
-- scdb_make_finish of c/lib/scdb/scdb_make.c: the tables behind the records, and the 2048 bytes at
-- the head of the file that say where they are.
pub mod Split
pub mod Counts
pub mod Grouped
pub mod Written
pub mod Finish
pub mod Room
pub mod Whole
mod Tests
use Prim.Native.Nat.{bit_and}
use mathlib.Core.List.{reverse}
use code_notebook.Base.{
  ℕ, zero, suc, ◌+◌, ◌-◌, ◌*◌, ◌/◌, ◌%◌, ◌^◌, Bool, ◌&&◌, List, [], ◌∷◌, ◌++◌, Option, none, some,
  ltb, leb, ◌==◌, if◌then◌else◌, length, get_or, set, take, drop, replicate,
}
use code_notebook.Run.{Run, ok, fault, ◌>>=◌}
use code_notebook.Scdb.Pack.{uint32_pack}
use code_notebook.Scdb.Buffer.{Buffer, putalign, flush, putflush}
use code_notebook.Scdb.Make.{Hp, Make, posplus}
use code_notebook.Scdb.Table.{table_of}

abbrev u32 : ℕ → ℕ
u32 n = n % 2 ^ 32

-- 255 & hp.h
abbrev pub slot : Hp → ℕ
slot hp = bit_and 255 hp.h

-- The cells of all nodes in the order of the two loops over them; `i` walks down in a node.
pub visited : List (List Hp) → List Hp
visited [] = []
visited (node ∷ next) = reverse node ++ visited next

-- for (i = 0; i < 256; ++i) c->count[i] = 0
pub no_counts : List ℕ
no_counts = replicate 256 0

-- ++c->count[255 & x->hp[i].h]
pub count_all : List Hp → List ℕ → List ℕ
count_all [] count = count
count_all (hp ∷ hps) count =
    count_all hps (set count (slot hp) (u32 (get_or count (slot hp) 0 + 1)))

-- The loop that raises memsize to the size of the largest table.
pub largest : List ℕ → ℕ → ℕ
largest [] memsize = memsize
largest (n ∷ count) memsize =
    largest count (if ltb memsize (u32 (n * 2)) then u32 (n * 2) else memsize)

-- The loop that sets c->start; `u` is the sum of the counts so far.
pub starts_from : ℕ → List ℕ → List ℕ
starts_from u [] = []
starts_from u (n ∷ count) = u32 (u + n) ∷ starts_from (u32 (u + n)) count

-- c->split[--c->start[255 & x->hp[i].h]] = x->hp[i]: the starts and the cells of c->split
pub split_all : List Hp → List ℕ → List Hp → Run (List ℕ × List Hp)
split_all [] start split = ok (start, split)
split_all (hp ∷ hps) start split =
    let where_ = u32 (get_or start (slot hp) 0 + 2 ^ 32 - 1) in
    let rest = split_all hps (set start (slot hp) where_) (set split where_ hp) in
    if ltb where_ (length split) then rest else fault

-- The bytes of one cell of a table.
pub cell_bytes : Hp → List ℕ
cell_bytes hp = uint32_pack hp.h ++ uint32_pack hp.p

-- The loop that writes a table.
pub write_cells : List Hp → Make → Run (ℕ × Make)
write_cells [] c = ok (0, c)
write_cells (hp ∷ hash) c = do
  (status, b) ← putalign c.b (cell_bytes hp)
  let (placed, c') = posplus (record c { b = b }) 8
  let rest = write_cells hash c'
  let next : Run (ℕ × Make) = if placed == 0 then rest else ok (1, c')
  if status == 0 then next else ok (1, record c { b = b })

-- What the loop over the 256 tables leaves: 0 or, in the place of -1, 1; the state; and what stands
-- in c->final so far.
pub record Indexed : Type 0 where
  pub status : ℕ
  pub make : Make
  pub final : List ℕ

-- The entries of one table, which must be cells of c->split.
pub entries_at : List Hp → ℕ → ℕ → Run (List Hp)
entries_at split start count =
    if leb (start + count) (length split) then ok (take count (drop start split)) else fault

-- The cells of one table, which must be within the `size` cells that c->hash has.
pub filled : ℕ → ℕ → List Hp → Run (List Hp)
filled size len hps = if leb len size then table_of len hps else fault

-- The loop over the 256 tables, with what is left of the counts and of the starts.
pub write_tables : ℕ → List Hp → List ℕ → List ℕ → List ℕ → Make → Run Indexed
write_tables size split [] start final c = ok (record { status = 0; make = c; final = final })
write_tables size split (n ∷ count) [] final c = fault
write_tables size split (n ∷ count) (s ∷ start) final c = do
  let len = u32 (n + n)
  let final' = final ++ (uint32_pack c.pos ++ uint32_pack len)
  hps ← entries_at split s n
  hash ← filled size len hps
  (status, c') ← write_cells hash c
  let rest = write_tables size split count start final' c'
  if status == 0 then rest else ok (record { status = 1; make = c'; final = final' })

-- What scdb_make_finish leaves: 0 or, in the place of -1, 1; the state before lseek; and the bytes
-- that `op` took from the head of the file on.
pub record Finished : Type 0 where
  pub status : ℕ
  pub make : Make
  pub head : List ℕ

abbrev pub failed : Make → Finished
failed c = record { status = 1; make = c; head = [] }

-- From buffer_flush on; `seeks` says whether lseek succeeds.
pub write_head : Bool → Indexed → Run Finished
write_head seeks i =
    let flushed : Run Finished = do
      (status, b) ← flush i.make.b
      let c = record i.make { b = b }
      let head = putflush (record b { sent = [] }) i.final >>= λ (s, b').
          ok (record { status = s; make = c; head = b'.sent })
      if status == 0 && seeks then head else ok (failed c)
    in if i.status == 0 then flushed else ok (failed i.make)

-- From malloc on; the block has `memsize` cells, and the first `numentries` are c->split.
pub build : List Hp → Bool → List ℕ → Make → Run Finished
build block seeks count c = do
  (start, split) ← split_all (visited c.head) (starts_from 0 count) (take c.numentries block)
  i ← write_tables (length block - c.numentries) split count start [] c
  write_head seeks i

-- scdb_make_finish; `malloc` answers with the cells of a block, and a cell has 8 bytes
pub finish : (ℕ → Option (List Hp)) → Bool → Make → Run Finished
finish malloc seeks c =
    let count = count_all (visited c.head) no_counts in
    let memsize = u32 (largest count 1 + c.numentries) in
    let built : Run Finished = elim (malloc memsize) [
      | none ↦ ok (failed c)
      | some block ↦ build block seeks count c
    ] in
    if ltb (0xffffffff / 8) memsize then ok (failed c) else built
