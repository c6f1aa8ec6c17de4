-- ===== src/Array/Tests.antt =====
-- Arrays with a few keys.
use code_notebook.Base.{◌≡◌, refl, true, false, [], ◌∷◌, none, some, arith}
use code_notebook.Run.{ok, ◌>>=◌}
use code_notebook.Array.{
  Array, Bytes, empty_slot, array_hash, hash_loop, get, get_loop, set, add_slot, place_loop, unset,
  is_at, xstrdup,
}
use code_notebook.Array.Compare.{bytes_eq}
use code_notebook.Array.Slots.{occurs, has, used}
use code_notebook.Array.Laws.{IsValid}
use code_notebook.Array.Writes.{HasSet, enough, set-HasSet}
use code_notebook.Array.Removals.{HasUnset, unset-HasUnset}

abbrev color : Bytes
color = b'c' ∷ b'o' ∷ []

abbrev small : Array
small = record { n = 0; size = 2; slots = empty_slot ∷ empty_slot ∷ [] }

small-IsValid : IsValid small
unfolding used occurs has
small-IsValid = record {
  sized = refl;
  counted = refl;
  hashed = (tt, (tt, tt));
  once = λ key. omega arith;
}

read_back :
    (set enough small color (some (b'r' ∷ [])) >>= λ r. elim r.1 [
      | none ↦ ok none
      | some a ↦ ok (get a color none)
    ])
    ≡ ok (some (b'r' ∷ []))
unfolding set add_slot place_loop get get_loop is_at xstrdup bytes_eq array_hash hash_loop
read_back = refl

no_memory :
    set
      (record { grow = false; key = true; val = true })
      (record { n = 0; size = 0; slots = [] })
      color
      none
    ≡ ok (1, none)
unfolding set add_slot
no_memory = refl

set-HasSet_example :
    (a' : Array) × (set enough small color (some (b'r' ∷ [])) ≡ ok (0, some a'))
    × HasSet small color (some (b'r' ∷ [])) a'
set-HasSet_example =
    set-HasSet small color (some (b'r' ∷ [])) small-IsValid (omega arith) (omega arith)

unset-HasUnset_example : HasUnset small color (unset small (some color))
unset-HasUnset_example = unset-HasUnset small color small-IsValid (omega arith)
