-- ===== src/Mfile.antt =====
-- c/lib/mfile/mfile.c: a file in memory, as a queue of blocks. A pointer to a block is its place in
-- the queue. Of a block the model keeps the bytes that were written, and reading a byte behind them
-- is a fault. A handler is never NULL. total_size and
-- new_header_size are the 32 bits of their `int`, which wrap.
pub mod Blocks
pub mod Ready
pub mod Writing
pub mod Heading
pub mod Read
pub mod Line
pub mod RoundTrip
mod Tests
use code_notebook.Base.{
  ℕ, zero, suc, ◌+◌, ◌-◌, ◌%◌, ◌^◌, Bool, true, false, ◌&&◌, List, [], ◌∷◌, ◌++◌, Option, none,
  some, map, ltb, leb, ◌==◌, if◌then◌else◌, length, get_elem?, set, take, drop,
}
use code_notebook.Run.{Run, ok, fault, out_of_fuel, ◌>>=◌, or_fault}

-- struct data_block; current_write_count and data_len are the length of `text`
pub record DataBlock : Type 0 where
  pub text : List ℕ
  pub current_read_count : ℕ

-- struct mfile, with what alloc_fun will answer in its place; when they are used up it refuses.
pub record Mfile : Type 0 where
  pub total_size : ℕ
  pub new_header_size : ℕ
  pub head : List DataBlock
  pub block_num : ℕ
  pub current_write_p : Option ℕ
  pub current_read_p : Option ℕ
  pub is_full : Bool
  pub is_empty : Bool
  pub data_block_size : ℕ
  pub ccache : ℕ
  pub answers : List Bool

-- DEFAULT_DATA_BLOCK_SIZE
abbrev pub default_data_block_size : ℕ
default_data_block_size = 8888

-- mopen; `has_af` and `has_fe` say whether the two functions are given, and `answers` are those of
-- the one that allocates. The block is cleared before it is tested.
pub mopen : ℕ → Bool → Bool → List Bool → Run (Option Mfile)
mopen size false true answers = ok none
mopen size true false answers = ok none
mopen size has_af has_fe [] = fault
mopen size has_af has_fe (false ∷ answers) = fault
mopen size has_af has_fe (true ∷ answers) = ok (
    some (record {
      total_size = 0;
      new_header_size = 0;
      head = [];
      block_num = 0;
      current_write_p = none;
      current_read_p = none;
      is_full = true;
      is_empty = false;
      data_block_size = if size == 0 then default_data_block_size else size;
      ccache = 10;
      answers = answers;
    }))

abbrev pub unread_block : DataBlock → DataBlock
unread_block b = record b { current_read_count = 0 }

-- mseek
pub mseek : Mfile → Mfile
mseek m = record m { is_empty = false; current_read_p = none; head = map unread_block m.head }

-- The loop of mseek_pos: the block that holds the position, and the position in it.
pub find_pos : List DataBlock → ℕ → Option (ℕ × ℕ)
find_pos [] pos = none
find_pos (b ∷ blocks) pos =
    let later : Option (ℕ × ℕ) = elim (find_pos blocks (pos - length b.text)) [
      | none ↦ none
      | some (i, p) ↦ some (suc i, p)
    ] in
    if leb pos (length b.text) then some (0, pos) else later

abbrev pub set_read : List DataBlock → ℕ → ℕ → List DataBlock
set_read [] i n = []
set_read (b ∷ blocks) zero n = record b { current_read_count = n } ∷ blocks
set_read (b ∷ blocks) (suc i) n = b ∷ set_read blocks i n

-- mseek_pos of a position that is not negative
pub mseek_pos : Mfile → ℕ → Mfile
unfolding mseek
mseek_pos m pos =
    let m' = mseek m in
    elim (find_pos m'.head pos) [
      | none ↦ m'
      | some (i, p) ↦ record m' { head = set_read m'.head i p; current_read_p = some i }
    ]

-- alloc_fun, twice: for the block and for its bytes
pub alloc_block : List Bool → Bool × List Bool
alloc_block [] = (false, [])
alloc_block (false ∷ answers) = (false, answers)
alloc_block (true ∷ []) = (false, [])
alloc_block (true ∷ room ∷ answers) = (room, answers)

abbrev pub new_block : DataBlock
new_block = record { text = []; current_read_count = 0 }

-- `if (handler->is_full)`: a new block at the end of the queue. `none` when there is no memory.
pub ready : Mfile → Bool × Mfile
ready m =
    let (room, answers) = alloc_block m.answers in
    let grown = record m {
      answers = answers;
      head = m.head ++ new_block ∷ [];
      block_num = m.block_num + 1;
      current_write_p = some (length m.head);
    } in
    if m.is_full
    then if room then (true, grown) else (false, record m { answers = answers })
    else (true, m)

-- memcpy to the end of what the block at `i` holds
abbrev pub append_at : List DataBlock → ℕ → List ℕ → List DataBlock
append_at [] i bytes = []
append_at (b ∷ blocks) zero bytes = record b { text = b.text ++ bytes } ∷ blocks
append_at (b ∷ blocks) (suc i) bytes = b ∷ append_at blocks i bytes

-- memcpy of `bytes` into the block `b`, which is the one at `i`
pub store : Mfile → ℕ → DataBlock → List ℕ → Run (List DataBlock)
store m i b bytes =
    if leb (length b.text + length bytes) m.data_block_size
    then ok (append_at m.head i bytes)
    else fault

-- `handler->current_write_p` and the block there, which must be one of the queue.
pub at : List DataBlock → Option ℕ → Run (ℕ × DataBlock)
at blocks none = fault
at blocks (some i) = or_fault (get_elem? blocks i) >>= λ b. ok (i, b)

-- One turn of the loop, behind the search for a block; `again` is the loop. 0 stands for 1, and 1
-- for -1.
pub write_block : (Mfile → List ℕ → Run (ℕ × Mfile)) → List ℕ → Bool × Mfile → Run (ℕ × Mfile)
write_block again bytes (false, m) = ok (1, m)
write_block again bytes (true, m) = do
  (i, b) ← at m.head m.current_write_p
  let free_count = m.data_block_size - length b.text
  let full = length b.text + length bytes == m.data_block_size
  let last = store m i b bytes >>= λ head. ok (0, record m { head = head; is_full = full })
  let next = store m i b (take free_count bytes) >>= λ head.
      again (record m { head = head; is_full = true }) (drop free_count bytes)
  if leb (length bytes) free_count then last else next

-- The loop of mwrite, with one unit of fuel for each turn.
pub mwrite_loop : ℕ → Mfile → List ℕ → Run (ℕ × Mfile)
mwrite_loop zero m bytes = out_of_fuel
mwrite_loop (suc fuel) m bytes =
    let written = write_block (λ m' rest. mwrite_loop fuel m' rest) bytes (ready m) in
    if length bytes == 0 then ok (0, m) else written

-- mwrite
pub mwrite : Mfile → List ℕ → Run (ℕ × Mfile)
unfolding mwrite_loop
mwrite m bytes =
    mwrite_loop (length bytes + 1)
      (record m { total_size = (m.total_size + length bytes) % 2 ^ 32 }) bytes

-- A pointer goes on pointing to its block behind a new first one.
abbrev pub shifted : Option ℕ → Option ℕ
shifted none = none
shifted (some i) = some (suc i)

-- mwrite_head
pub mwrite_head : Mfile → List ℕ → ℕ × Mfile
mwrite_head m bytes =
    let (room, answers) = alloc_block m.answers in
    let sized = record m {
      total_size = (m.total_size + length bytes) % 2 ^ 32;
      answers = answers;
    } in
    let block : DataBlock = record { text = bytes; current_read_count = 0 } in
    let added = record sized {
      new_header_size = (m.new_header_size + length bytes) % 2 ^ 32;
      block_num = m.block_num + 1;
      head = block ∷ m.head;
      current_write_p = shifted m.current_write_p;
      current_read_p = shifted m.current_read_p;
    } in
    if ltb m.data_block_size (length bytes) then (1, m) else if room then (0, added) else (1, sized)
