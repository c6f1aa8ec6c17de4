-- ===== src/Array.antt =====
-- c/src/array/array.c: strings under string keys, in slots that are searched from the first.
-- The arrays `key`, `val` and `hash` are allocated, doubled and indexed together, so that slot i
-- holds the three entries at i. A C string is the list of its bytes before the final zero.
-- What an allocation answers is an argument. Sizes stay below 2 ^ 26, where no `int` of bytes
-- wraps. array_new looks at the first of its four allocations only: here they succeed together or
-- not at all. Implode has array_implode_alloc, Explode array_explode_alloc. Not modelled:
-- array_dump, which prints.
pub mod Compare
pub mod Slots
pub mod Invariant
pub mod Laws
pub mod Writes
pub mod Removals
pub mod Implode
pub mod Explode
mod Tests
use Prim.Native.Nat.{bit_xor}
use code_notebook.Base.{
  ℕ, zero, suc, ◌+◌, ◌-◌, ◌*◌, ◌/◌, ◌%◌, ◌^◌, Bool, true, false, not, ◌&&◌, ◌||◌, List, [], ◌∷◌,
  ◌++◌, Option, none, some, ltb, leb, ◌==◌, if◌then◌else◌, length, replicate, take, map, get_elem?,
}
use code_notebook.Run.{Run, ok, fault, or_fault, ◌>>=◌}
use code_notebook.Array.Compare.{bytes_eq}

abbrev pub Bytes : Type 0
Bytes = List ℕ

pub record Slot : Type 0 where
  pub key : Option Bytes
  pub val : Option Bytes
  pub hash : ℕ

-- struct array
pub record Array : Type 0 where
  pub n : ℕ
  pub size : ℕ
  pub slots : List Slot

-- Which allocations of a call succeed: the doubling, and the copies of the key and the value.
pub record Memory : Type 0 where
  pub grow : Bool
  pub key : Bool
  pub val : Bool

abbrev pub u32 : ℕ → ℕ
u32 x = x % 2 ^ 32

abbrev pub array_min_size : ℕ
array_min_size = 128

abbrev pub empty_slot : Slot
empty_slot = record { key = none; val = none; hash = 0 }

-- array_new, whose allocations all succeed or not
pub new : Bool → ℕ → Option Array
new room size =
    let size' = if ltb size array_min_size then array_min_size else size in
    if room then some (record { n = 0; size = size'; slots = replicate size' empty_slot }) else none

-- array_clean: the number returned, and the array
pub clean : Array → ℕ × Array
clean a = (a.size, record a { n = 0; slots = map (λ s. empty_slot) a.slots })

-- A `char` as an unsigned number of 32 bits.
abbrev signed_char : ℕ → ℕ
signed_char c = if ltb c 128 then c else c + 2 ^ 32 - 256

pub hash_loop : ℕ → Bytes → ℕ
hash_loop hash [] = hash
hash_loop hash (c ∷ key) =
    let h1 = u32 (hash + signed_char c) in
    let h2 = u32 (h1 + u32 (h1 * 2 ^ 10)) in hash_loop (bit_xor h2 (h2 / 2 ^ 6)) key

-- array_hash
pub array_hash : Bytes → ℕ
unfolding hash_loop
array_hash key =
    let h1 = hash_loop 0 key in
    let h2 = u32 (h1 + u32 (h1 * 2 ^ 3)) in
    let h3 = bit_xor h2 (h2 / 2 ^ 11) in u32 (h3 + u32 (h3 * 2 ^ 15))

-- The test of the three searches: a key is there, its hash agrees, and then strcmp.
pub is_at : ℕ → Bytes → Slot → Bool
is_at hash key s = elim s.key [ none ↦ false | some k ↦ hash == s.hash && bytes_eq key k ]

pub get_loop : ℕ → Bytes → Option Bytes → List Slot → Option Bytes
get_loop hash key def [] = def
get_loop hash key def (s ∷ slots) =
    let rest = get_loop hash key def slots in if is_at hash key s then s.val else rest

-- array_get; the pointers that it takes as default and returns may be null
pub get : Array → Bytes → Option Bytes → Option Bytes
unfolding get_loop
get a key def = get_loop (array_hash key) key def a.slots

-- xstrdup
pub xstrdup : Bool → Option Bytes → Option Bytes
xstrdup room none = none
xstrdup room (some s) = if room then some s else none

-- the first loop of array_set: the slots with the value replaced, if the key was found
pub replace_loop : ℕ → Bytes → Option Bytes → List Slot → Option (List Slot)
replace_loop hash key val [] = none
replace_loop hash key val (s ∷ slots) =
    let rest = replace_loop hash key val slots in
    if is_at hash key s
    then some (record s { val = val } ∷ slots)
    else elim rest [ none ↦ none | some slots' ↦ some (s ∷ slots') ]

-- the second loop of array_set, and the writes at the index that it stops at
pub place_loop : Slot → List Slot → Run (List Slot)
place_loop new_slot [] = fault
place_loop new_slot (s ∷ slots) =
    let rest = place_loop new_slot slots >>= λ slots'. ok (s ∷ slots') in
    elim s.key [ none ↦ ok (new_slot ∷ slots) | some k ↦ rest ]

-- the code behind the search; 1 stands for the returned number -1, and then no array is left,
-- since the pointers that the failed doubling replaced are null
pub add_slot : Memory → Array → Slot → Run (ℕ × Option Array)
add_slot m a new_slot =
    let grown =
      if a.n == a.size
      then record { n = a.n; size = a.size * 2; slots = a.slots ++ replicate a.size empty_slot }
      else a in
    let added = place_loop new_slot grown.slots >>= λ slots'.
    ok (0, some (record grown { n = u32 (a.n + 1); slots = slots' })) in
    if a.n == a.size && not m.grow then ok (1, none) else added

-- array_set on an array and a key that are not null; null pointers make it return -1
pub set : Memory → Array → Bytes → Option Bytes → Run (ℕ × Option Array)
unfolding replace_loop add_slot place_loop xstrdup
set m a key val =
    let hash = array_hash key in
    let copy = xstrdup m.val val in
    let fresh = add_slot m a (record { key = xstrdup m.key (some key); val = copy; hash = hash }) in
    elim (if ltb 0 a.n then replace_loop hash key copy a.slots else none) [
      | some slots' ↦ ok (0, some (record a { slots = slots' }))
      | none ↦ fresh
    ]

-- array_unset's search and the writes at the index found; none if it reaches the end
pub unset_loop : ℕ → Bytes → List Slot → Option (List Slot)
unset_loop hash key [] = none
unset_loop hash key (s ∷ slots) =
    let rest = unset_loop hash key slots in
    if is_at hash key s
    then some (empty_slot ∷ slots)
    else elim rest [ none ↦ none | some slots' ↦ some (s ∷ slots') ]

-- array_unset; a null key leaves the array alone
pub unset : Array → Option Bytes → Array
unfolding unset_loop
unset a none = a
unset a (some key) = elim (unset_loop (array_hash key) key a.slots) [
  | none ↦ a
  | some slots' ↦ record { n = u32 (a.n + 2 ^ 32 - 1); size = a.size; slots = slots' }
]

-- array_count
pub count : Array → ℕ
count a = a.n

-- array_size
pub array_size : Array → ℕ
array_size a = a.size

-- array_key and array_value; the index must be one of a slot
pub array_key : Array → ℕ → Run (Option Bytes)
array_key a i = or_fault (get_elem? a.slots i) >>= λ s. ok s.key

pub array_value : Array → ℕ → Run (Option Bytes)
array_value a i = or_fault (get_elem? a.slots i) >>= λ s. ok s.val
