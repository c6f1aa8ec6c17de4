-- ===== src/Scdb/Make.antt =====
-- c/lib/scdb/scdb_make.c: records appended to a database that is being made, and the list of
-- where they start. scdb_make_finish is in Index.
pub mod Records
pub mod Add
use code_notebook.Base.{
  ℕ, ◌+◌, ◌*◌, ◌%◌, ◌^◌, Bool, List, [], ◌∷◌, ◌++◌, Option, none, some, ltb, leb, ◌==◌,
  if◌then◌else◌, length,
}
use code_notebook.Run.{Run, ok, fault, ◌>>=◌}
use code_notebook.Scdb.Pack.{uint32_pack, scdb_hash}
use code_notebook.Scdb.Buffer.{Answer, Buffer, init, putalign}

-- struct scdb_hp
pub record Hp : Type 0 where
  pub h : ℕ
  pub p : ℕ

-- SCDB_HPLIST, the cells of one node of the list
abbrev pub node_size : ℕ
node_size = 1000

-- struct scdb_make. A node of `head` is the list of its first `num` cells.
pub record Make : Type 0 where
  pub head : List (List Hp)
  pub numentries : ℕ
  pub b : Buffer
  pub pos : ℕ

abbrev u32 : ℕ → ℕ
u32 n = n % 2 ^ 32

-- scdb_make_start; `space` is the 8192 bytes of bspace, and lseek succeeds. `op` gets the bytes
-- that stand in the file from byte 2048 on.
pub start : List Answer → List ℕ → Make
start answers space = record { head = []; numentries = 0; b = init answers space 8192; pos = 2048 }

-- posplus
pub posplus : Make → ℕ → ℕ × Make
posplus c len =
    let newpos = u32 (c.pos + len) in
    if ltb newpos len then (1, c) else (0, record c { pos = newpos })

-- The list with a cell that is free in its first node; `room` says whether malloc has a node.
pub with_free_cell : Bool → List (List Hp) → Option (List (List Hp))
with_free_cell room [] = if room then some ([] ∷ []) else none
with_free_cell room (node ∷ next) =
    if leb node_size (length node)
    then if room then some ([] ∷ node ∷ next) else none
    else some (node ∷ next)

-- head->hp[head->num] = hp, which must be one of the cells
pub store_hp : List (List Hp) → Hp → Run (List (List Hp))
store_hp [] hp = fault
store_hp (node ∷ next) hp =
    if ltb (length node) node_size then ok ((node ++ hp ∷ []) ∷ next) else fault

-- scdb_make_addend
pub addend : Bool → Make → ℕ → ℕ → ℕ → Run (ℕ × Make)
addend room c keylen datalen h = elim (with_free_cell room c.head) [
  | none ↦ ok (1, c)
  | some head ↦ store_hp head (record { h = h; p = c.pos }) >>= λ head'.
      let c0 = record c { head = head'; numentries = u32 (c.numentries + 1) } in
      let (s1, c1) = posplus c0 8 in
      let (s2, c2) = posplus c1 keylen in
      let (s3, c3) = posplus c2 datalen in
      ok (
        if s1 == 0
        then if s2 == 0 then if s3 == 0 then (0, c3) else (1, c3) else (1, c2)
        else (1, c1))
]

-- `if (... == -1) return -1`, and then the rest
pub and_then : Run (ℕ × Buffer) → (Buffer → Run (ℕ × Buffer)) → Run (ℕ × Buffer)
and_then first next = do
  (status, b) ← first
  let rest = next b
  if status == 0 then rest else ok (status, b)

-- scdb_make_addbegin, which uses the buffer alone; its two tests never hold for an unsigned int
pub addbegin : Buffer → ℕ → ℕ → Run (ℕ × Buffer)
addbegin b keylen datalen =
    let written = putalign b (uint32_pack keylen ++ uint32_pack datalen) in
    if ltb 0xffffffff keylen
    then ok (1, b)
    else if ltb 0xffffffff datalen
    then ok (1, b)
    else written

-- scdb_make_add
pub add : Bool → Make → List ℕ → List ℕ → Run (ℕ × Make)
unfolding and_then
add room c key value =
    and_then (and_then (addbegin c.b (length key) (length value)) (λ b. putalign b key))
      (λ b. putalign b value)
    >>= λ (status, b).
        let ended = addend room (record c { b = b }) (length key) (length value) (scdb_hash key) in
        if status == 0 then ended else ok (status, record c { b = b })
