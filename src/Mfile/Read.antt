-- ===== src/Mfile/Read.antt =====
-- c/lib/mfile/mfile.c: reading, and copying from one file to another.
pub mod Place
pub mod InOrder
pub mod Byte
use code_notebook.Base.{
  ℕ, zero, suc, ◌+◌, ◌-◌, ◌%◌, ◌^◌, Bool, true, false, List, [], ◌∷◌, ◌++◌, Option, none, some, ltb,
  leb, ◌==◌, if◌then◌else◌, length, get_elem?, take, drop,
}
use code_notebook.Run.{Run, ok, fault, out_of_fuel, ◌>>=◌, or_fault}
use code_notebook.Mfile.{DataBlock, Mfile, set_read, at, mseek_pos, mwrite}

-- `if (NULL == handler->current_read_p)`: the reader starts at the first block, if there is one.
pub first_block : Mfile → List DataBlock → Option Mfile
first_block m [] = none
first_block m (b ∷ blocks) = some (record m { current_read_p = some 0 })

pub started_at : Mfile → Option ℕ → Option Mfile
started_at m (some i) = some m
started_at m none = first_block m m.head

abbrev pub started : Mfile → Option Mfile
started m = started_at m m.current_read_p

-- TAILQ_NEXT of the block at `i`
pub next_of : List DataBlock → ℕ → Option ℕ
next_of head i = if ltb (suc i) (length head) then some (suc i) else none

pub next_block : Mfile → Option ℕ → Option Mfile
unfolding next_of
next_block m none = none
next_block m (some i) = elim (next_of m.head i) [
  | none ↦ none
  | some j ↦ some (record m { current_read_p = some j })
]

-- `if (handler->is_empty)`: the reader moves on to the next block; `none` when there is no other.
pub moved_on : Mfile → Option Mfile
unfolding next_block
moved_on m = if m.is_empty then next_block m m.current_read_p else some m

-- The bytes of the block that were not read yet.
abbrev pub unread : DataBlock → List ℕ
unread b = drop b.current_read_count b.text

-- One turn of the loop of mread, in the block where the reader is; `again` is the loop.
pub read_block :
    (Mfile → ℕ → List ℕ → Run (List ℕ × Mfile)) → ℕ → List ℕ → Mfile → Run (List ℕ × Mfile)
read_block again len out m = do
  (i, b) ← at m.head m.current_read_p
  let could_read = length (unread b)
  let count = b.current_read_count
  let last = record m {
    head = set_read m.head i (count + len);
    is_empty = count + len == length b.text;
  }
  let emptied = record m { head = set_read m.head i (count + could_read); is_empty = true }
  let next = again emptied (len - could_read) (out ++ unread b)
  let some_bytes = if leb len could_read then ok (out ++ take len (unread b), last) else next
  if could_read == 0 then ok (out, m) else some_bytes

-- The loop, with one unit of fuel for each turn: the bytes that are read.
pub mread_loop : ℕ → Mfile → ℕ → List ℕ → Run (List ℕ × Mfile)
mread_loop zero m len out = out_of_fuel
mread_loop (suc fuel) m len out =
    let turn : Run (List ℕ × Mfile) = elim (moved_on m) [
      | none ↦ ok (out, m)
      | some m' ↦ read_block (λ later more out'. mread_loop fuel later more out') len out m'
    ] in
    if len == 0 then ok (out, m) else turn

-- mread of at most `len` bytes; `none` is -1
pub mread : Mfile → ℕ → Run (Option (List ℕ) × Mfile)
unfolding mread_loop
mread m len = elim (started m) [
  | none ↦ ok (none, m)
  | some m' ↦ mread_loop (len + 1) m' len [] >>= λ (out, m''). ok (some out, m'')
]

-- From `current_block` on, mgetc reads the byte, which must have been written.
pub read_byte : Mfile → Run (ℕ × Mfile)
read_byte m = do
  (i, b) ← at m.head m.current_read_p
  c ← or_fault (get_elem? b.text b.current_read_count)
  let count = b.current_read_count + 1
  ok (c, record m { head = set_read m.head i count; is_empty = count == length b.text })

-- mgetc; 0 also when there is nothing to read
pub mgetc : Mfile → Run (ℕ × Mfile)
unfolding read_byte
mgetc m = elim (started m) [
  | none ↦ ok (0, m)
  | some m' ↦ elim (moved_on m') [ none ↦ ok (0, m') | some m'' ↦ read_byte m'' ]
]

-- msize
pub msize : Mfile → ℕ
msize m = m.total_size

-- mfile_new_header_size
pub mfile_new_header_size : Mfile → ℕ
mfile_new_header_size m = m.new_header_size

-- The loop of mfile_copy, with one unit of fuel for each turn: 0, or 1 in the place of -1, and both
-- files.
pub copy_loop : ℕ → Mfile → Mfile → ℕ → ℕ → Run (ℕ × Mfile × Mfile)
copy_loop zero dest src i end = out_of_fuel
copy_loop (suc fuel) dest src i end =
    let j = if ltb (end - i) 1024 then end - i else 1024 in
    let go_on = λ (ret : List ℕ) (dest' src' : Mfile).
      let next = copy_loop fuel dest' src' (i + j) end in
      if ltb (length ret) 1024 then ok (0, dest', src') else next in
    let turn : Run (ℕ × Mfile × Mfile) = mread src j >>= λ (r, src'). elim r [
      | none ↦ ok (1, dest, src')
      | some [] ↦ ok (1, dest, src')
      | some (b ∷ ret) ↦ mwrite dest (b ∷ ret) >>= λ (status, dest'). go_on (b ∷ ret) dest' src'
    ] in
    if ltb i end then turn else ok (0, dest, src)

-- mfile_copy, for `end` below 2 ^ 31: end - start, as the sum is that of unsigned numbers, or none
-- for -1
pub mfile_copy : Mfile → Mfile → ℕ → ℕ → Run (Option ℕ × Mfile × Mfile)
unfolding copy_loop
mfile_copy dest src start end = do
  (status, dest', src') ← copy_loop (end + 1) dest (mseek_pos src start) start end
  ok (if status == 0 then some ((end + 2 ^ 32 - start) % 2 ^ 32) else none, dest', src')
