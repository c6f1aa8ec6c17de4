-- ===== src/Schar.antt =====
-- c/src/schar/schar.c: a string that grows, ended by a zero that its length does not count.
-- `malloc` is given to each call that allocates: for a number of bytes it answers with a block or
-- with `none`. `unsigned int` wraps at 2 ^ 32. The searches are in Search.
pub mod Grow
pub mod Write
pub mod Search
mod Tests
use Prim.Native.Nat.{bit_and}
use code_notebook.Base.{
  ℕ, zero, suc, ◌+◌, ◌-◌, ◌*◌, ◌/◌, ◌%◌, ◌^◌, Bool, List, [], ◌∷◌, ◌++◌, Option, none, some, ltb,
  leb, ◌==◌, if◌then◌else◌, length, set, take, drop, map,
}
use code_notebook.Block.{memcpy}
use code_notebook.Run.{Run, ok, fault, ◌>>=◌}
use code_notebook.Text.Slashes.{toupper, tolower}

-- struct schar; `none` is the null pointer
pub record Schar : Type 0 where
  pub s : Option (List ℕ)
  pub len : ℕ
  pub size : ℕ

abbrev pub u32 : ℕ → ℕ
u32 n = n % 2 ^ 32

abbrev pub alignment : ℕ
alignment = 16

abbrev pub Malloc : Type 0
Malloc = ℕ → Option (List ℕ)

-- SCHAR_SUCC and SCHAR_FAIL
abbrev pub succeeded : ℕ
succeeded = 0

abbrev pub failed : ℕ
failed = 1

pub alloc : Malloc → ℕ → Option (List ℕ)
alloc malloc n = malloc (u32 (u32 (alignment + n) + 2 ^ 32 - bit_and n (alignment - 1)))

-- _realloc, with `none` for SCHAR_FAIL: the new block in the place of `x`
pub realloc : Malloc → List ℕ → ℕ → ℕ → Run (Option (List ℕ))
realloc malloc x m n = elim (alloc malloc n) [
  | none ↦ ok none
  | some y ↦ memcpy y 0 x m >>= λ z. ok (some z)
]

-- schar_ready: the returned number, and the string
pub ready : Malloc → Schar → ℕ → Run (ℕ × Schar)
ready malloc x n = elim x.s [
  | none ↦ elim (alloc malloc n) [
    | none ↦ ok (failed, record { s = none; len = 0; size = n })
    | some b ↦ ok (succeeded, record { s = some b; len = 0; size = n })
  ]
  | some b ↦
      let n' = u32 (n + x.len) in
      let i = u32 (30 + n' + n' / 8) in
      let grown = realloc malloc b x.size i >>= λ answer. elim answer [
        | some y ↦ ok (succeeded, record x { s = some y; size = i })
        | none ↦ ok (failed, x)
      ] in
      if ltb x.size n' then grown else ok (succeeded, x)
]

-- dest->s[i] = '\0'
pub terminate : List ℕ → ℕ → Run (List ℕ)
terminate b i = if ltb i (length b) then ok (set b i 0) else fault

-- The end of schar_copyb and of schar_catb: `n` bytes of `src` at `at`, and a zero behind them.
pub written : ℕ → List ℕ → ℕ → Schar → Run (ℕ × Schar)
written at src n x = elim x.s [
  | none ↦ fault
  | some b ↦ memcpy b at src n >>= λ b'. terminate b' (u32 (at + n)) >>= λ b''.
      ok (succeeded, record x { s = some b''; len = u32 (at + n) })
]

-- schar_copyb
pub copyb : Malloc → Schar → List ℕ → ℕ → Run (ℕ × Schar)
copyb malloc dest src n = do
  (answer, x) ← ready malloc dest (u32 (n + 1))
  let copied = written 0 src n x
  if answer == failed then ok (failed, x) else copied

-- schar_catb
pub catb : Malloc → Schar → List ℕ → ℕ → Run (ℕ × Schar)
catb malloc dest src n =
    let appended : Run (ℕ × Schar) = do
      (answer, x) ← ready malloc dest (u32 (n + 1))
      let behind = written x.len src n x
      if answer == failed then ok (failed, x) else behind
    in elim dest.s [ none ↦ copyb malloc dest src n | some b ↦ appended ]

-- schar_copys and schar_cats, whose argument is the bytes before the first zero
pub copys : Malloc → Schar → List ℕ → Run (ℕ × Schar)
copys malloc dest str = copyb malloc dest str (length str)

pub cats : Malloc → Schar → List ℕ → Run (ℕ × Schar)
cats malloc dest str = catb malloc dest str (length str)

-- The bytes at source->s; there are none to read at a null pointer.
abbrev pub bytes_at : Option (List ℕ) → List ℕ
bytes_at none = []
bytes_at (some b) = b

-- schar_copy and schar_cat of two different strings
pub copy : Malloc → Schar → Schar → Run (ℕ × Schar)
copy malloc dest source = copyb malloc dest (bytes_at source.s) source.len

pub cat : Malloc → Schar → Schar → Run (ℕ × Schar)
cat malloc dest source = catb malloc dest (bytes_at source.s) source.len

-- The loops of the two case changes run over the first `len` bytes.
change_case : (ℕ → ℕ) → Option (List ℕ) → ℕ → Option (List ℕ)
change_case f none len = none
change_case f (some b) len = some (map f (take len b) ++ drop len b)

-- schar_strtolower and schar_strtoupper
pub strtolower : Schar → Schar
unfolding change_case
strtolower x = record x { s = change_case tolower x.s x.len }

pub strtoupper : Schar → Schar
unfolding change_case
strtoupper x = record x { s = change_case toupper x.s x.len }

-- schar_clean
pub clean : Schar → Schar
clean x = elim x.s [ none ↦ x | some b ↦ record { s = none; len = 0; size = 0 } ]

-- schar_new, whose own allocation succeeds or not, and schar_delete
pub new : Bool → Option Schar
new allocated = if allocated then some (record { s = none; len = 0; size = 0 }) else none

pub delete : Option Schar → Option Schar
delete x = none
