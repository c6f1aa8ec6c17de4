-- ===== src/Array/Laws.antt =====
-- A valid array, and what array_get reads in it.
use code_notebook.Base.{
  ℕ, zero, suc, ◌^◌, ◌≤◌, ◌≡◌, refl, List, [], ◌∷◌, ◌++◌, Option, none, some, arith, if◌then◌else◌,
  length, replicate, Bool-cases, inl, inr,
}
use code_notebook.Array.{Array, Bytes, Slot, empty_slot, new, get}
use code_notebook.Array.Compare.{bytes_eq}
use code_notebook.Array.Slots.{AreHashed, has, occurs, used, find, get_loop-find}
use code_notebook.Array.Invariant.{Changed}

-- `n` counts the slots with a key, each key is in one slot at most, and its hash beside it.
pub record IsValid (a : Array) : Type 0 where
  pub sized : length a.slots ≡ a.size
  pub counted : a.n ≡ used a.slots
  pub hashed : AreHashed a.slots
  pub once : (key : Bytes) → occurs key a.slots ≤ 1

abbrev pub max_size : ℕ
max_size = 2 ^ 26

pub get-find :
    (a : Array) (key : Bytes) (def : Option Bytes)
    → AreHashed a.slots
    → get a key def ≡ elim (find key a.slots) [ none ↦ def | some v ↦ v ]
unfolding get
get-find a key def h = get_loop-find key def a.slots h

pub occurs-le-used : (key : Bytes) (slots : List Slot) → occurs key slots ≤ used slots
unfolding occurs used has
occurs-le-used key [] = omega arith
occurs-le-used key (s ∷ slots) = ground (arith, occurs-le-used key slots)

pub used-le-length : (slots : List Slot) → used slots ≤ length slots
unfolding used
used-le-length [] = omega arith
used-le-length (s ∷ slots) = ground (arith, used-le-length slots)

-- Empty slots at the end change nothing but the length.
pub record SameKeys (slots slots' : List Slot) : Type 0 where
  pub hashed : AreHashed slots'
  pub used_same : used slots' ≡ used slots
  pub occurs_same : (key : Bytes) → occurs key slots' ≡ occurs key slots
  pub find_same : (key : Bytes) → find key slots' ≡ find key slots

pub empty_slots : (k : ℕ) → SameKeys [] (replicate k empty_slot)
unfolding used occurs find has
empty_slots zero = record {
  hashed = tt;
  used_same = refl;
  occurs_same = λ key. refl;
  find_same = λ key. refl;
}
empty_slots (suc k) =
    let rest = empty_slots k in
    record {
      hashed = (tt, rest.hashed);
      used_same = omega (arith, rest.used_same);
      occurs_same = λ key. omega (arith, rest.occurs_same key);
      find_same = rest.find_same;
    }

pub more_slots :
    (k : ℕ) (slots : List Slot) → AreHashed slots → SameKeys slots (slots ++ replicate k empty_slot)
unfolding used occurs find
more_slots k [] h = empty_slots k
more_slots k (s ∷ slots) (e, h) =
    let rest = more_slots k slots h in
    record {
      hashed = (e, rest.hashed);
      used_same = omega (arith, rest.used_same);
      occurs_same = λ key. omega (arith, rest.occurs_same key);
      find_same = λ key. rw (rest.find_same key);
    }

pub read-Changed :
    (a a' : Array) (key : Bytes) (v : Option (Option Bytes)) (old new : ℕ)
    → AreHashed a.slots
    → Changed key v old new a.slots a'.slots
    → (q : Bytes) (def : Option Bytes)
    → get a' q def ≡ (if bytes_eq q key then elim v [ none ↦ def | some w ↦ w ] else get a q def)
read-Changed a a' key v old new h c q def =
    rw (get-find a' q def c.hashed, get-find a q def h, c.finds q)
      (elim (Bool-cases (bytes_eq q key)) [ inl p ↦ rw p | inr p ↦ rw p ])
