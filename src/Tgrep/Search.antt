-- ===== src/Tgrep/Search.antt =====
-- c/app/tgrep/tgrep.c: the lines of a part of a file that contain the pattern. strstr and strcasestr
-- are parameters, and what the calls of read answer is a list. The text holds no NUL.
pub mod Blocks
mod Tests
use code_notebook.Base.{
  ℕ, zero, suc, ◌+◌, ◌-◌, Bool, true, false, List, [], ◌∷◌, ◌++◌, Option, none, some, length, take,
  ltb, ◌==◌, if◌then◌else◌,
}
use code_notebook.Run.{Run, ok, fault}

pub record Matcher : Type 0 where
  pub ignore_case : Bool
  pub pattern : List ℕ
  pub file : List ℕ
  pub show_filename : Bool

-- What stands behind the first line feed.
pub after_newline : List ℕ → Option (List ℕ)
after_newline [] = none
after_newline (c ∷ bytes) = if c == b'\n' then some bytes else after_newline bytes

-- Where the lines of a block start: behind its first line feed when nothing was kept of the block
-- before.
abbrev pub lines_of : List ℕ → List ℕ → Option (List ℕ)
lines_of [] bytes = after_newline bytes
lines_of (k ∷ kept) bytes = some (k ∷ kept ++ bytes)

abbrev pub smaller : ℕ → ℕ → ℕ
smaller total bufalloc = if ltb total bufalloc then total else bufalloc

module _ (strstr strcasestr : List ℕ → List ℕ → Bool) where
  -- What grep_str prints for a line without its line feed.
  pub grep_str : Matcher → List ℕ → List ℕ
  grep_str m buf =
      let found = if m.ignore_case then strcasestr buf m.pattern else strstr buf m.pattern in
      let name = if m.show_filename then m.file ++ (b':' ∷ b' ' ∷ []) else [] in
      if found then name ++ (buf ++ b'\n' ∷ []) else []

  -- The inner loop: what it prints, and what stays behind the last line feed. `line` is what memchr
  -- has passed since the one before.
  pub print_lines : Matcher → List ℕ → List ℕ → List ℕ × List ℕ
  unfolding grep_str
  print_lines m line [] = ([], line)
  print_lines m line (c ∷ bytes) =
      let ended : List ℕ × List ℕ =
        (grep_str m line ++ (print_lines m [] bytes).0, (print_lines m [] bytes).1) in
      let longer = print_lines m (line ++ c ∷ []) bytes in if c == b'\n' then ended else longer

  -- Of a block of lines: print them, and go on with what is left.
  abbrev pub on_lines :
      Matcher → Option (List ℕ) → List ℕ → (List ℕ → List ℕ → Run (ℕ × List ℕ)) → Run (ℕ × List ℕ)
  on_lines m none out next = ok (1, out)
  on_lines m (some bytes) out next =
      let (printed, kept) = print_lines m [] bytes in next kept (out ++ printed)

  -- A block that read gave, for a buffer of `capacity` bytes.
  abbrev pub on_block :
      Matcher
      → ℕ
      → List ℕ
      → List ℕ
      → List ℕ
      → (List ℕ → List ℕ → Run (ℕ × List ℕ))
      → Run (ℕ × List ℕ)
  on_block m capacity [] kept out next = ok (0, out)
  on_block m capacity (b ∷ block) kept out next =
      if ltb capacity (length kept + length (b ∷ block))
      then fault
      else on_lines m (lines_of kept (b ∷ block)) out next

  -- At most `count` bytes of what read answers; -1 is `none`.
  abbrev pub on_read :
      Matcher
      → ℕ
      → ℕ
      → Option (List ℕ)
      → List ℕ
      → List ℕ
      → (ℕ → List ℕ → List ℕ → Run (ℕ × List ℕ))
      → Run (ℕ × List ℕ)
  on_read m capacity count none kept out next = ok (1, out)
  on_read m capacity count (some bytes) kept out next =
      on_block m capacity (take count bytes) kept out (next (length (take count bytes)))

  -- The turns of the loop, with what it returns and what it has printed. Behind its last answer
  -- read gives 0.
  pub search_blocks :
      Matcher → ℕ → List (Option (List ℕ)) → ℕ → ℕ → List ℕ → List ℕ → Run (ℕ × List ℕ)
  unfolding print_lines after_newline
  search_blocks m capacity [] bufalloc total kept out = ok (if total == 0 then 1 else 0, out)
  search_blocks m capacity (answer ∷ answers) bufalloc total kept out =
      let count = smaller total bufalloc in
      let turn =
        on_read m capacity count answer kept out
          (λ n kept' out'. search_blocks m capacity answers count (total - n) kept' out') in
      if total == 0 then ok (1, out) else turn

  -- From the positions on: the file is open, and the buffer has been allocated.
  pub search_part : Matcher → ℕ → List (Option (List ℕ)) → ℕ → ℕ → Run (ℕ × List ℕ)
  unfolding search_blocks
  search_part m capacity answers start end =
      search_blocks m capacity answers capacity (end - start) [] []
