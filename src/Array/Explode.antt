-- ===== src/Array/Explode.antt =====
-- array_explode_alloc of c/src/array/array.c. The separator and the text are not null, and have no
-- zero. There are fewer than 2 ^ 31 tokens, so that %d prints the index.
pub mod Keys
pub mod Tokens
mod Tests
use code_notebook.Base.{
  ℕ, zero, suc, ◌+◌, ◌/◌, ◌%◌, Bool, true, false, ◌||◌, List, [], ◌∷◌, ◌++◌, Option, none, some,
  ltb, ◌==◌, if◌then◌else◌,
}
use code_notebook.Run.{Run, ok, fault, ◌>>=◌}
use code_notebook.Array.{Array, Memory, Bytes, new, set}

-- sprintf(key, "%d", i)
pub digits : ℕ → ℕ → Bytes
digits zero n = []
digits (suc fuel) n =
    let front = digits fuel (n / 10) in
    if ltb n 10 then (b'0' + n) ∷ [] else front ++ (b'0' + n % 10) ∷ []

pub decimal : ℕ → Bytes
unfolding digits
decimal n = digits (suc n) n

abbrev pub within : ℕ → Bytes → Bool
within c [] = false
within c (d ∷ sep) = c == d || within c sep

abbrev pub ended : Bytes → List Bytes → List Bytes
ended [] toks = toks
ended (c ∷ tok) toks = (c ∷ tok) ∷ toks

-- What the calls of strtok give: the longest parts without a byte of the separator, none empty.
-- `tok` is the part before the bytes.
pub tokens : Bytes → Bytes → Bytes → List Bytes
tokens sep tok [] = ended tok []
tokens sep tok (c ∷ s) =
    let next = ended tok (tokens sep [] s) in
    let longer = tokens sep (tok ++ c ∷ []) s in if within c sep then next else longer

-- The loop, with the memory of each array_set. `none` is the array whose pointers a failed doubling
-- has made null.
pub explode_loop : (ℕ → Memory) → ℕ → Option Array → List Bytes → Run (Option Array)
explode_loop memory i a [] = ok a
explode_loop memory i none (tok ∷ toks) = fault
explode_loop memory i (some a) (tok ∷ toks) =
    set (memory i) a (decimal i) (some tok) >>= λ done. explode_loop memory (i + 1) done.1 toks

-- `room` tells whether the copy of the text and the array can be allocated; `none` is a null
-- pointer.
pub array_explode_alloc : Bool → Bool → (ℕ → Memory) → Bytes → Bytes → Run (Option (Option Array))
array_explode_alloc copy_room room memory sep s =
    if copy_room
    then elim (new room 0) [
      | none ↦ ok none
      | some a ↦ explode_loop memory 0 (some a) (tokens sep [] s) >>= λ a'. ok (some a')
    ]
    else ok none
