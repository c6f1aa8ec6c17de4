-- ===== src/Mfile/Line.antt =====
-- mread_line of c/lib/mfile/mfile.c.
use code_notebook.Base.{
  ℕ, zero, suc, ◌+◌, ◌-◌, List, [], ◌∷◌, ◌++◌, leb, ◌==◌, if◌then◌else◌, length,
}
use code_notebook.Run.{Run, ok, fault, ◌>>=◌}
use code_notebook.Mfile.{Mfile}
use code_notebook.Mfile.Read.{mgetc}

-- What mread_line leaves: what it returns, the bytes that it wrote from `buf` on, and the file.
pub record Line : Type 0 where
  pub r : ℕ
  pub buf : List ℕ
  pub handler : Mfile

-- The next byte, which may be the one that was read too far.
pub next_byte : Mfile → Run (ℕ × Mfile)
next_byte m =
    let read = mgetc m in if m.ccache == 10 then read else ok (m.ccache, record m { ccache = 13 })

-- Behind a carriage return; `out` ends in it.
pub after_return : List ℕ → Mfile → Run Line
after_return out m = do
  (c, m') ← mgetc m
  let m'' = record m' { ccache = c }
  let end : Line = record { r = length out + 1; buf = out ++ 10 ∷ 0 ∷ []; handler = m'' }
  let pair : Line = record { r = length out + 1; buf = out ++ c ∷ []; handler = m'' }
  let alone : Line = record { r = length out; buf = out; handler = m'' }
  ok (if c == 0 then end else if c == 10 then pair else alone)

-- The loop, which has `n` turns at most.
pub line_loop : ℕ → List ℕ → Mfile → Run Line
line_loop zero out m = ok (record { r = 0; buf = out; handler = m })
line_loop (suc n) out m = do
  (c, m') ← next_byte m
  let out' = out ++ c ∷ []
  let returned = after_return out' m'
  let next = line_loop n out' m'
  let ended : Line = record { r = length out'; buf = out'; handler = m' }
  let stopped : Line = record { r = length out; buf = out'; handler = m' }
  if c == 13 then returned else if c == 10 then ok ended else if c == 0 then ok stopped else next

-- `n -= 2`, and the turns of the loop then; with -1 there is one, as the test stands behind it.
pub turns : ℕ → ℕ
turns n = if n == 1 then 1 else n - 2

-- mread_line into a buffer of `n` bytes, the last of which is set to 0 first
pub mread_line : Mfile → ℕ → Run Line
unfolding line_loop turns
mread_line m n =
    let line : Run Line = do
      line ← line_loop (turns n) [] m
      if leb (length line.buf) n then ok line else fault
    in if n == 0 then fault else line
