-- ===== src/Array/Removals.antt =====
-- array_unset, array_clean and array_new through array_get.
use code_notebook.Base.{
  ℕ, ◌+◌, ◌-◌, ◌^◌, ◌≤◌, ◌<◌, ◌≡◌, refl, ap, sym, ◌∙◌, true, List, [], ◌∷◌, Option, none, some,
  arith, ltb, if◌then◌else◌, length, replicate, map, Bool-cases, inl, inr, length-replicate,
}
use code_notebook.Array.{
  Array, Bytes, Slot, empty_slot, array_hash, array_min_size, u32, new, clean, get, unset,
  unset_loop,
}
use code_notebook.Array.Compare.{bytes_eq, bytes_eq_sound}
use code_notebook.Array.Slots.{occurs, used, find, find-eq-none}
use code_notebook.Array.Invariant.{Changed, unset_loop-Changed}
use code_notebook.Array.Laws.{IsValid, get-find, occurs-le-used, empty_slots, read-Changed}

-- The array without a key.
pub record HasUnset (a : Array) (key : Bytes) (a' : Array) : Type 0 where
  pub valid : IsValid a'
  pub number : a'.n + occurs key a.slots ≡ a.n
  pub gets :
      (q : Bytes) (def : Option Bytes)
      → get a' q def ≡ (if bytes_eq q key then def else get a q def)

unset_found :
    (a : Array) (key : Bytes) (slots' : List Slot)
    → unset_loop (array_hash key) key a.slots ≡ some slots'
    → unset a (some key) ≡ record { n = u32 (a.n + 2 ^ 32 - 1); size = a.size; slots = slots' }
unfolding unset
unset_found a key slots' found = simp (unset, found)

unset_missing :
    (a : Array) (key : Bytes)
    → unset_loop (array_hash key) key a.slots ≡ none
    → unset a (some key) ≡ a
unfolding unset
unset_missing a key missing = simp (unset, missing)

absent-get :
    (a : Array) (key : Bytes)
    → IsValid a
    → occurs key a.slots ≡ 0
    → (q : Bytes) (def : Option Bytes) → get a q def ≡ (if bytes_eq q key then def else get a q def)
absent-get a key v absent q def = elim (Bool-cases (bytes_eq q key)) [
  | inr p ↦ rw p
  | inl p ↦
      let none_here : occurs q a.slots ≡ 0 =
        ap (λ (t : Bytes). occurs t a.slots) (bytes_eq_sound q key p) ∙ absent in
      rw (p, get-find a q def v.hashed, find-eq-none q a.slots none_here)
]

taken_HasUnset :
    (a : Array) (key : Bytes) (slots' : List Slot)
    → IsValid a
    → a.n < 2 ^ 32
    → 1 ≤ occurs key a.slots
    → Changed key none 1 0 a.slots slots'
    → HasUnset a key (record { n = u32 (a.n + 2 ^ 32 - 1); size = a.size; slots = slots' })
taken_HasUnset a key slots' v small one c =
    let some_used = occurs-le-used key a.slots in
    let less : u32 (a.n + 2 ^ 32 - 1) ≡ a.n - 1 = omega (arith, v.counted) in
    record {
      valid = record {
        sized = c.same_length ∙ v.sized;
        counted = omega (arith, c.use_count, v.counted);
        hashed = c.hashed;
        once = λ q. elim (Bool-cases (bytes_eq q key)) [
          | inl p ↦ omega (arith, rw p at (c.occurrences q), v.once q)
          | inr p ↦ omega (arith, rw p at (c.occurrences q), v.once q)
        ];
      };
      number = omega (arith, v.once key, v.counted);
      gets =
          read-Changed a (record { n = u32 (a.n + 2 ^ 32 - 1); size = a.size; slots = slots' }) key
            none 1 0 v.hashed c;
    }

-- array_unset on a valid array: it stays valid, the key is gone and reads as the default, every
-- other key reads as before, and the count falls by one exactly if the key was there.
pub unset-HasUnset :
    (a : Array) (key : Bytes) → IsValid a → a.n < 2 ^ 32 → HasUnset a key (unset a (some key))
unset-HasUnset a key v small = elim (unset_loop-Changed key a.slots v.hashed (v.once key)) [
  | inl (missing, absent) ↦
      rw (unset_missing a key missing)
        (record { valid = v; number = omega (arith, absent); gets = absent-get a key v absent })
  | inr (slots', found, one, c) ↦
      rw (unset_found a key slots' found) (taken_HasUnset a key slots' v small one c)
]

empties-IsValid : (k : ℕ) → IsValid (record { n = 0; size = k; slots = replicate k empty_slot })
unfolding used occurs
empties-IsValid k =
    let e = empty_slots k in
    record {
      sized = length-replicate k empty_slot;
      counted = sym e.used_same;
      hashed = e.hashed;
      once = λ key. omega (arith, e.occurs_same key);
    }

empties_get :
    (k : ℕ) (key : Bytes) (def : Option Bytes)
    → get (record { n = 0; size = k; slots = replicate k empty_slot }) key def ≡ def
unfolding find
empties_get k key def =
    let e = empty_slots k in
    rw (
      get-find (record { n = 0; size = k; slots = replicate k empty_slot }) key def e.hashed,
      e.find_same key,
    )

all_empty : (slots : List Slot) → map (λ s. empty_slot) slots ≡ replicate (length slots) empty_slot
all_empty [] = refl
all_empty (s ∷ slots) = ap (◌∷◌ empty_slot) (all_empty slots)

-- An array that holds nothing: valid, with the given number of free slots.
pub record IsCleared (size : ℕ) (a : Array) : Type 0 where
  pub valid : IsValid a
  pub number : a.n ≡ 0
  pub room : a.size ≡ size
  pub gets : (key : Bytes) (def : Option Bytes) → get a key def ≡ def

empties-IsCleared :
    (k : ℕ) → IsCleared k (record { n = 0; size = k; slots = replicate k empty_slot })
empties-IsCleared k = record {
  valid = empties-IsValid k;
  number = refl;
  room = refl;
  gets = empties_get k;
}

-- array_clean of a valid array returns its size and leaves a valid array of that size with no
-- key, and array_new makes such an array, of at least 128 slots.
pub clean-IsCleared :
    (a : Array) (size : ℕ)
    → IsValid a
    → ((clean a).0 ≡ a.size)
      × IsCleared a.size (clean a).1
      × ((b : Array) × (new true size ≡ some b)
          × IsCleared (if ltb size array_min_size then array_min_size else size) b)
unfolding clean new
clean-IsCleared a size v = (
  refl,
  rw (all_empty a.slots, v.sized) (empties-IsCleared a.size),
  (_, refl, empties-IsCleared (if ltb size array_min_size then array_min_size else size)),
)
