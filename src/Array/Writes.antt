-- ===== src/Array/Writes.antt =====
-- array_set through array_get.
use code_notebook.Base.{
  ℕ, ◌+◌, ◌-◌, ◌*◌, ◌^◌, ◌≤◌, ◌<◌, ◌≡◌, refl, ap, ◌∙◌, true, false, ◌&&◌, List, ◌++◌, Option, none,
  some, arith, ltb, ◌==◌, if◌then◌else◌, length, replicate, Bool-cases, inl, inr, length-append,
  length-replicate,
}
use code_notebook.Run.{ok, ◌>>=◌}
use code_notebook.Array.{
  Array, Memory, Bytes, Slot, empty_slot, array_hash, u32, xstrdup, get, set, add_slot,
  replace_loop, place_loop,
}
use code_notebook.Array.Compare.{bytes_eq, bytes_eq_sound}
use code_notebook.Array.Slots.{AreHashed, occurs}
use code_notebook.Array.Invariant.{Changed, replace_loop-Changed, place_loop-Changed}
use code_notebook.Array.Laws.{
  IsValid, max_size, get-find, occurs-le-used, used-le-length, SameKeys, more_slots, read-Changed,
}

-- The array after a write of `val` under `key`.
pub record HasSet (a : Array) (key : Bytes) (val : Option Bytes) (a' : Array) : Type 0 where
  pub valid : IsValid a'
  pub gets :
      (q : Bytes) (def : Option Bytes)
      → get a' q def ≡ (if bytes_eq q key then val else get a q def)
  pub number : a'.n + occurs key a.slots ≡ a.n + 1
  pub room : a'.size ≡ (if a.n == a.size && occurs key a.slots == 0 then a.size * 2 else a.size)

unchanged : (slots : List Slot) → AreHashed slots → SameKeys slots slots
unchanged slots h = record {
  hashed = h;
  used_same = refl;
  occurs_same = λ key. refl;
  find_same = λ key. refl;
}

abbrev pub enough : Memory
enough = record { grow = true; key = true; val = true }

copied : (val : Option Bytes) → xstrdup true val ≡ val
unfolding xstrdup
copied none = refl
copied (some s) = refl

-- The new entry goes into a free slot, of the doubled array if there was none.
add_HasSet :
    (a b : Array) (key : Bytes) (val : Option Bytes)
    → IsValid a
    → a.n < 2 ^ 32 - 1
    → occurs key a.slots ≡ 0
    → SameKeys a.slots b.slots
    → b.n ≡ a.n
    → length b.slots ≡ b.size
    → a.n < b.size
    → b.size ≡ (if a.n == a.size then a.size * 2 else a.size)
    → (a' : Array) × (◌>>=◌ {B = ℕ × Option Array}
          (place_loop (record { key = some key; val = val; hash = array_hash key }) b.slots)
          (λ slots'. ok (0, some (record b { n = u32 (a.n + 1); slots = slots' })))
        ≡ ok (0, some a'))
      × HasSet a key val a'
add_HasSet a b key val v small fresh same n sized room size =
    let (slots', done, c) =
      place_loop-Changed key val b.slots same.hashed (same.occurs_same key ∙ fresh)
        (omega (arith, same.used_same, v.counted)) in
    let one : u32 (a.n + 1) ≡ a.n + 1 = omega arith in
    let a' = record b { n = u32 (a.n + 1); slots = slots' } in
    let same_find : (q : Bytes) (def : Option Bytes) → get b q def ≡ get a q def =
      λ q def. rw (get-find b q def same.hashed, get-find a q def v.hashed, same.find_same q) in
    (
      a',
      rw done,
      record {
        valid = record {
          sized = c.same_length ∙ sized;
          counted = omega (arith, c.use_count, same.used_same, v.counted);
          hashed = c.hashed;
          once = λ q. once_more q slots' c;
        };
        gets =
            λ q def. rw (read-Changed b a' key (some val) 0 1 same.hashed c q def, same_find q def);
        number = omega (arith, fresh);
        room = rw fresh (size ∙ elim (Bool-cases (a.n == a.size)) [ inl p ↦ rw p | inr p ↦ rw p ]);
      },
    )
  where
    once_more :
        (q : Bytes) (slots' : List Slot)
        → Changed key (some val) 0 1 b.slots slots'
        → occurs q slots' ≤ 1
    once_more q slots' c = elim (Bool-cases (bytes_eq q key)) [
      | inl p ↦
          let none_yet : occurs q b.slots ≡ 0 =
            ap (λ (t : Bytes). occurs t b.slots) (bytes_eq_sound q key p)
            ∙ same.occurs_same key
            ∙ fresh in
          omega (arith, rw p at (c.occurrences q), none_yet)
      | inr p ↦ omega (arith, rw p at (c.occurrences q), same.occurs_same q, v.once q)
    ]

add_slot-HasSet :
    (a : Array) (key : Bytes) (val : Option Bytes)
    → IsValid a
    → 0 < a.size
    → a.size ≤ max_size
    → occurs key a.slots ≡ 0
    → (a' : Array) × (add_slot enough a
          (record { key = some key; val = val; hash = array_hash key })
        ≡ ok (0, some a'))
      × HasSet a key val a'
unfolding add_slot
add_slot-HasSet a key val v pos small fresh =
    let fits = used-le-length a.slots in
    let counted = v.counted in
    let sized = v.sized in
    elim (Bool-cases (a.n == a.size)) [
      | inl full ↦ rw full (
          add_HasSet a
            (record { n = a.n; size = a.size * 2; slots = a.slots ++ replicate a.size empty_slot })
            key val v (omega arith) fresh (more_slots a.size a.slots v.hashed) refl
            (omega (
              arith,
              length-append a.slots (replicate a.size empty_slot),
              length-replicate a.size empty_slot,
            ))
            (ground arith) (rw full))
      | inr spare ↦ rw spare (
          add_HasSet a a key val v (omega arith) fresh (unchanged a.slots v.hashed) refl sized
            (ground arith) (rw spare))
    ]

replaced_HasSet :
    (a : Array) (key : Bytes) (val : Option Bytes) (slots' : List Slot)
    → IsValid a
    → 1 ≤ occurs key a.slots
    → Changed key (some val) 1 1 a.slots slots'
    → HasSet a key val (record a { slots = slots' })
replaced_HasSet a key val slots' v one c = record {
  valid = record {
    sized = c.same_length ∙ v.sized;
    counted = omega (arith, c.use_count, v.counted);
    hashed = c.hashed;
    once = λ q. omega (arith, c.occurrences q, v.once q);
  };
  gets = read-Changed a (record a { slots = slots' }) key (some val) 1 1 v.hashed c;
  number = omega (arith, v.once key);
  room =
      let found : (occurs key a.slots == 0) ≡ false = ground arith in
      rw found (elim (Bool-cases (a.n == a.size)) [ inl p ↦ rw p | inr p ↦ rw p ]);
}

set_found :
    (a : Array) (key : Bytes) (val : Option Bytes) (slots' : List Slot)
    → ltb 0 a.n ≡ true
    → replace_loop (array_hash key) key val a.slots ≡ some slots'
    → set enough a key val ≡ ok (0, some (record a { slots = slots' }))
unfolding set
set_found a key val slots' nonempty found = simp (set, copied val, nonempty, found)

set_new :
    (a : Array) (key : Bytes) (val : Option Bytes)
    → replace_loop (array_hash key) key val a.slots ≡ none
    → set enough a key val
      ≡ add_slot enough a (record { key = some key; val = val; hash = array_hash key })
unfolding set
set_new a key val missing = elim (Bool-cases (ltb 0 a.n)) [
  | inl p ↦ simp (set, copied val, copied (some key), p, missing)
  | inr p ↦ simp (set, copied val, copied (some key), p)
]

-- array_set on a valid array of at most 2 ^ 26 slots, with memory for its copies, returns 0: the
-- array stays valid, the key has the value, every other key reads as before, the count grows by
-- one exactly if the key is new, and the size doubles exactly if it is new and no slot is free. This
-- holds of a NULL value too, which is stored and counted.
pub set-HasSet :
    (a : Array) (key : Bytes) (val : Option Bytes)
    → IsValid a
    → 0 < a.size
    → a.size ≤ max_size
    → (a' : Array) × (set enough a key val ≡ ok (0, some a')) × HasSet a key val a'
set-HasSet a key val v pos small = elim (replace_loop-Changed key val a.slots v.hashed) [
  | inl (missing, fresh) ↦
      let (a', done, h) = add_slot-HasSet a key val v pos small fresh in
      (a', set_new a key val missing ∙ done, h)
  | inr (slots', found, one, c) ↦
      let nonempty : ltb 0 a.n ≡ true = ground (arith, occurs-le-used key a.slots, v.counted) in
      (
        record a { slots = slots' },
        set_found a key val slots' nonempty found,
        replaced_HasSet a key val slots' v one c,
      )
]
