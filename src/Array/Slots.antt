-- ===== src/Array/Slots.antt =====
-- The searches, seen through the keys alone.
use code_notebook.Base.{
  ℕ, ◌+◌, ◌≡◌, refl, ap, sym, ◌∙◌, Bool, true, false, List, [], ◌∷◌, Option, none, some, arith,
  ◌==◌, if◌then◌else◌, Bool-cases, inl, inr,
}
use code_notebook.Array.{Bytes, Slot, array_hash, is_at, get_loop}
use code_notebook.Array.Compare.{bytes_eq, bytes_eq_sound}

-- The slot has this key.
unfoldable pub has : Bytes → Slot → Bool
has key s = elim s.key [ none ↦ false | some k ↦ bytes_eq key k ]

-- A key is stored with its hash.
abbrev pub HashedKey : Option Bytes → ℕ → Type 0
HashedKey none h = Unit {0}
HashedKey (some k) h = h ≡ array_hash k

abbrev pub AreHashed : List Slot → Type 0
AreHashed [] = Unit {0}
AreHashed (s ∷ slots) = HashedKey s.key s.hash × AreHashed slots

-- How many slots have this key, and how many have a key.
unfoldable pub occurs : Bytes → List Slot → ℕ
occurs key [] = 0
occurs key (s ∷ slots) = (if has key s then 1 else 0) + occurs key slots

abbrev pub filled : Option Bytes → ℕ
filled none = 0
filled (some k) = 1

unfoldable pub used : List Slot → ℕ
used [] = 0
used (s ∷ slots) = filled s.key + used slots

-- What the slots hold under a key.
unfoldable pub find : Bytes → List Slot → Option (Option Bytes)
find key [] = none
find key (s ∷ slots) = if has key s then some s.val else find key slots

is_at-has_parts :
    (key : Bytes) (k v : Option Bytes) (h : ℕ)
    → HashedKey k h
    → is_at (array_hash key) key (record { key = k; val = v; hash = h })
      ≡ has key (record { key = k; val = v; hash = h })
unfolding is_at has
is_at-has_parts key none v h e = refl
is_at-has_parts key (some k) v h e = elim (Bool-cases (bytes_eq key k)) [
  | inl same ↦
      let equal = bytes_eq_sound key k same in
      let hashes : (array_hash key == h) ≡ true = ground (arith, ap array_hash equal) in
      rw (same, hashes)
  | inr other ↦ rw other (elim (Bool-cases (array_hash key == h)) [ inl p ↦ rw p | inr p ↦ rw p ])
]

-- With right hashes the comparison of hashes changes nothing.
pub is_at-has :
    (key : Bytes) (s : Slot) → HashedKey s.key s.hash → is_at (array_hash key) key s ≡ has key s
is_at-has key s e = is_at-has_parts key s.key s.val s.hash e

has_parts :
    (key key' : Bytes) (k v : Option Bytes) (h : ℕ)
    → has key (record { key = k; val = v; hash = h }) ≡ true
    → has key' (record { key = k; val = v; hash = h }) ≡ true
    → key ≡ key'
unfolding has
has_parts key key' none v h p q = cc
has_parts key key' (some k) v h p q = bytes_eq_sound key k p ∙ sym (bytes_eq_sound key' k q)

-- A slot has one key.
pub has_one : (key key' : Bytes) (s : Slot) → has key s ≡ true → has key' s ≡ true → key ≡ key'
has_one key key' s = has_parts key key' s.key s.val s.hash

pub get_loop-find :
    (key : Bytes) (def : Option Bytes) (slots : List Slot)
    → AreHashed slots
    → get_loop (array_hash key) key def slots ≡ elim (find key slots) [ none ↦ def | some v ↦ v ]
unfolding get_loop find
get_loop-find key def [] h = refl
get_loop-find key def (s ∷ slots) (e, h) =
    rw (is_at-has key s e, get_loop-find key def slots h)
      (elim (Bool-cases (has key s)) [ inl p ↦ rw p | inr p ↦ rw p ])

pub find-eq-none : (key : Bytes) (slots : List Slot) → occurs key slots ≡ 0 → find key slots ≡ none
unfolding occurs find
find-eq-none key [] h = refl
find-eq-none key (s ∷ slots) h = ground (arith, find-eq-none key slots)
