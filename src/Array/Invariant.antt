-- ===== src/Array/Invariant.antt =====
-- What the three loops that write leave in the slots.
use code_notebook.Base.{
  ℕ, suc, ◌+◌, ◌≤◌, ◌<◌, ◌≡◌, refl, ap, ◌∙◌, ◌⊎◌, true, false, List, [], ◌∷◌, Option, none, some,
  arith, if◌then◌else◌, length, Bool-cases, inl, inr, Option-cases,
}
use code_notebook.Run.{ok}
use code_notebook.Array.{Bytes, Slot, empty_slot, array_hash, replace_loop, place_loop, unset_loop}
use code_notebook.Array.Compare.{bytes_eq, bytes_eq_sound, bytes_eq_complete}
use code_notebook.Array.Slots.{
  has, HashedKey, AreHashed, occurs, filled, used, find, is_at-has, has_one, find-eq-none,
}

-- `slots'` holds `v` under `key` and is otherwise as `slots`; `old` and `new` are the numbers of
-- slots that the key has in them.
pub record Changed (key : Bytes) (v : Option (Option Bytes)) (old new : ℕ)
    (slots slots' : List Slot) : Type 0 where
  pub hashed : AreHashed slots'
  pub same_length : length slots' ≡ length slots
  pub use_count : used slots' + old ≡ used slots + new
  pub occurrences :
      (q : Bytes)
      → occurs q slots' + (if bytes_eq q key then old else 0)
        ≡ occurs q slots + (if bytes_eq q key then new else 0)
  pub finds : (q : Bytes) → find q slots' ≡ (if bytes_eq q key then v else find q slots)

-- A slot of another key, or of none, stays in front.
Changed-cons :
    (key : Bytes) (v : Option (Option Bytes)) (old new : ℕ) (s : Slot) (slots slots' : List Slot)
    → HashedKey s.key s.hash
    → has key s ≡ false
    → Changed key v old new slots slots'
    → Changed key v old new (s ∷ slots) (s ∷ slots')
unfolding occurs used find
Changed-cons key v old new s slots slots' e other c = record {
  hashed = (e, c.hashed);
  same_length = ap suc c.same_length;
  use_count = omega (arith, c.use_count);
  occurrences = λ q. omega (arith, c.occurrences q);
  finds = λ q. elim (Bool-cases (has q s)) [
    | inr p ↦ rw p (c.finds q)
    | inl p ↦ elim (Bool-cases (bytes_eq q key)) [
      | inr d ↦ rw (p, d)
      | inl same ↦ absurd (clash q p (bytes_eq_sound q key same))
    ]
  ];
}
  where
    clash : (q : Bytes) → has q s ≡ true → q ≡ key → ⊥
    clash q p same = let h = rw same at p in cc

indicator : (q key : Bytes) (s : Slot) → has key s ≡ true → has q s ≡ bytes_eq q key
indicator q key s h = elim (Bool-cases (has q s)) [
  | inl p ↦ rw (p, bytes_eq_complete q key (has_one q key s p h))
  | inr p ↦ elim (Bool-cases (bytes_eq q key)) [
    | inr d ↦ rw (p, d)
    | inl same ↦ absurd (clash (bytes_eq_sound q key same) p)
  ]
]
  where
    clash : q ≡ key → has q s ≡ false → ⊥
    clash same p = let p' = rw same at p in cc

-- The value of the slot that has the key is replaced.
replaced :
    (key : Bytes) (val : Option Bytes) (s : Slot) (slots : List Slot)
    → AreHashed (s ∷ slots)
    → has key s ≡ true
    → Changed key (some val) 1 1 (s ∷ slots) (record s { val = val } ∷ slots)
unfolding occurs used find
replaced key val s slots (e, h) here = record {
  hashed = (e, h);
  same_length = refl;
  use_count = refl;
  occurrences = λ q. rw (same_key q);
  finds = λ q.
      rw (same_key q, indicator q key s here)
        (elim (Bool-cases (bytes_eq q key)) [ inl p ↦ rw p | inr p ↦ rw p ]);
}
  where
    same_key : (q : Bytes) → has q (record s { val = val }) ≡ has q s
    same_key q = unfold has in refl

pub replace_loop-Changed :
    (key : Bytes) (val : Option Bytes) (slots : List Slot)
    → AreHashed slots
    → ((replace_loop (array_hash key) key val slots ≡ none) × (occurs key slots ≡ 0))
      ⊎ ((slots' : List Slot) × (replace_loop (array_hash key) key val slots ≡ some slots')
          × (1 ≤ occurs key slots)
          × Changed key (some val) 1 1 slots slots')
unfolding replace_loop occurs
replace_loop-Changed key val [] h = inl (refl, refl)
replace_loop-Changed key val (s ∷ slots) (e, h) =
    rw (is_at-has key s e) (elim (Bool-cases (has key s)) [
      | inl here ↦ rw here (inr (_, refl, omega arith, replaced key val s slots (e, h) here))
      | inr other ↦ rw other (elim (replace_loop-Changed key val slots h) [
        | inl (missing, zero_times) ↦ rw missing (inl (refl, omega (arith, zero_times)))
        | inr (slots', found, one, c) ↦ rw found (
            inr (
              _,
              refl,
              omega (arith, one),
              Changed-cons key (some val) 1 1 s slots slots' e other c,
            ))
      ])
    ])

-- The first slot without a key takes the new entry.
placed :
    (key : Bytes) (val : Option Bytes) (s : Slot) (slots : List Slot)
    → AreHashed slots
    → s.key ≡ none
    → Changed key
        (some val)
        0
        1
        (s ∷ slots)
        (record { key = some key; val = val; hash = array_hash key } ∷ slots)
unfolding occurs used find has
placed key val s slots h e = record {
  hashed = (refl, h);
  same_length = refl;
  use_count = rw e (omega arith);
  occurrences =
      λ q. rw e (elim (Bool-cases (bytes_eq q key)) [ inl p ↦ rw p (omega arith) | inr p ↦ rw p ]);
  finds = λ q. rw e;
}

has-none : (q : Bytes) (s : Slot) → s.key ≡ none → has q s ≡ false
unfolding has
has-none q s e = rw e

place_behind :
    (new s : Slot) (slots : List Slot) (k : Bytes) (slots' : List Slot)
    → s.key ≡ some k
    → place_loop new slots ≡ ok slots'
    → place_loop new (s ∷ slots) ≡ ok (s ∷ slots')
unfolding place_loop
place_behind new s slots k slots' taken done = simp (taken, done)

pub place_loop-Changed :
    (key : Bytes) (val : Option Bytes) (slots : List Slot)
    → AreHashed slots
    → occurs key slots ≡ 0
    → used slots < length slots
    → (slots' : List Slot) × (place_loop
          (record { key = some key; val = val; hash = array_hash key })
          slots
        ≡ ok slots')
      × Changed key (some val) 0 1 slots slots'
unfolding place_loop occurs used
place_loop-Changed key val [] h z room = absurd (omega arith)
place_loop-Changed key val (s ∷ slots) (e, h) z room = elim (Option-cases s.key) [
  | inl free ↦ (_, rw free, placed key val s slots h free)
  | inr (k, taken) ↦
      let one : filled s.key ≡ 1 = rw taken in
      let other : has key s ≡ false = ground arith in
      let (slots', done, c) =
        place_loop-Changed key val slots h (omega arith) (omega (arith, one)) in
      (
        s ∷ slots',
        place_behind _ s slots k slots' taken done,
        Changed-cons key (some val) 0 1 s slots slots' e other c,
      )
]

-- The slot that has the key is emptied.
emptied :
    (key : Bytes) (s : Slot) (slots : List Slot)
    → AreHashed slots
    → has key s ≡ true
    → occurs key slots ≡ 0
    → Changed key none 1 0 (s ∷ slots) (empty_slot ∷ slots)
unfolding occurs used find
emptied key s slots h here once = record {
  hashed = (tt, h);
  same_length = refl;
  use_count = rw (used_slot s here) (omega arith);
  occurrences = λ q.
      rw (has-none q empty_slot refl, indicator q key s here)
        (elim (Bool-cases (bytes_eq q key)) [ inl p ↦ rw p (omega arith) | inr p ↦ rw p ]);
  finds = λ q.
      rw (has-none q empty_slot refl, indicator q key s here)
        (elim (Bool-cases (bytes_eq q key)) [
          | inr p ↦ rw p
          | inl p ↦ rw p (
              find-eq-none q slots
                (ap (λ (t : Bytes). occurs t slots) (bytes_eq_sound q key p) ∙ once))
        ]);
}
  where
    used_slot : (s : Slot) → has key s ≡ true → filled s.key ≡ 1
    used_slot s p = elim (Option-cases s.key) [
      | inr (k, taken) ↦ rw taken
      | inl free ↦ let no = has-none key s free in absurd (cc)
    ]

pub unset_loop-Changed :
    (key : Bytes) (slots : List Slot)
    → AreHashed slots
    → occurs key slots ≤ 1
    → ((unset_loop (array_hash key) key slots ≡ none) × (occurs key slots ≡ 0))
      ⊎ ((slots' : List Slot) × (unset_loop (array_hash key) key slots ≡ some slots')
          × (1 ≤ occurs key slots)
          × Changed key none 1 0 slots slots')
unfolding unset_loop occurs
unset_loop-Changed key [] h once = inl (refl, refl)
unset_loop-Changed key (s ∷ slots) (e, h) once =
    rw (is_at-has key s e) (elim (Bool-cases (has key s)) [
      | inl here ↦
          let none_left : occurs key slots ≡ 0 = omega (arith, rw here at once) in
          rw here (inr (_, refl, omega arith, emptied key s slots h here none_left))
      | inr other ↦
          rw other (elim (unset_loop-Changed key slots h (omega (arith, rw other at once))) [
            | inl (missing, zero_times) ↦ rw missing (inl (refl, omega (arith, zero_times)))
            | inr (slots', found, one, c) ↦ rw found (
                inr
                  (_, refl, omega (arith, one), Changed-cons key none 1 0 s slots slots' e other c))
          ])
    ])
