-- ===== src/Array/Implode.antt =====
-- array_implode_alloc of c/src/array/array.c. `room` tells for which numbers of bytes malloc and
-- calloc give a block. A size whose double overflows the `int` of _mem_double is a fault. The
-- separator and the array are not null.
pub mod Joined
mod Tests
use code_notebook.Base.{
  ℕ, ◌+◌, ◌-◌, ◌*◌, ◌^◌, Bool, true, false, not, ◌&&◌, List, [], ◌∷◌, ◌++◌, Option, none, some, leb,
  ◌==◌, if◌then◌else◌, length, take,
}
use code_notebook.Run.{Run, ok, fault, out_of_fuel}
use code_notebook.Array.{Array, Slot, Bytes, u32}

-- What is returned: a null pointer, a block in which nothing was written, or a string.
pub data Imploded : Type 0 where
  null unwritten : Imploded
  string : Bytes → Imploded

abbrev pub returned : Option Bytes → Imploded
returned none = unwritten
returned (some res) = string res

abbrev pub text_at : Option Bytes → Bytes
text_at none = []
text_at (some res) = res

-- The value of a slot that has a key.
pub held : Slot → Option Bytes
held s = elim s.key [ none ↦ none | some k ↦ s.val ]

-- A value behind the text: the separator before it, and the size of the block afterwards
pub append_val : (ℕ → Bool) → Bytes → ℕ → Bytes → Bytes → Run (Option (Bytes × ℕ))
append_val room sep size res val =
    let tight = leb (size - length res) (length sep + length val) in
    let size' = if tight then size * 2 else size in
    if tight && leb (2 ^ 30) size
    then fault
    else if tight && not (room (size * 2))
    then ok none
    else ok (some (res ++ take (size' - length res - 1) (sep ++ val), size'))

-- The body of the loop, for the slot 0 and for the others
pub put_val : (ℕ → Bool) → Bytes → Bool → ℕ → Bytes → Bytes → Run (Option (Bytes × ℕ))
put_val room sep true size res val = ok (some (take (size - 1) val, size))
put_val room sep false size res val = append_val room sep size res val

pub implode_loop : (ℕ → Bool) → Bytes → Bool → List Slot → ℕ → Option Bytes → Run Imploded
implode_loop room sep first [] size res = ok (returned res)
implode_loop room sep first (s ∷ slots) size res = elim (held s) [
  | none ↦ implode_loop room sep false slots size res
  | some val ↦ elim (put_val room sep first size (text_at res) val) [
    | fault ↦ fault
    | out_of_fuel ↦ out_of_fuel
    | ok none ↦ ok null
    | ok (some (res', size')) ↦ implode_loop room sep false slots size' (some res')
  ]
]

pub array_implode_alloc : (ℕ → Bool) → Bytes → Array → Run Imploded
array_implode_alloc room sep a =
    let size = u32 (1024 + length sep * a.size) in
    if a.n == 0
    then ok null
    else if room size
    then implode_loop room sep true a.slots size none
    else ok null
