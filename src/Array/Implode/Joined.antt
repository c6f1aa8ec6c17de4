-- ===== src/Array/Implode/Joined.antt =====
-- The string that array_implode_alloc of c/src/array/array.c builds.
use mathlib.Core.Path.{subst}
use mathlib.Core.List.{append_assoc, append-nil}
use code_notebook.Base.{
  ℕ, ◌+◌, ◌-◌, ◌*◌, ◌^◌, ◌≤◌, ◌<◌, ◌≡◌, refl, sym, ap, ◌∙◌, ◌⊎◌, Bool, true, false, inl, inr, List,
  [], ◌∷◌, ◌++◌, Option, none, some, arith, leb, ◌==◌, length, length-append, Bool-cases,
}
use code_notebook.Base.Slices.{take-all}
use code_notebook.Run.{ok}
use code_notebook.Array.{Array, Slot, Bytes, u32}
use code_notebook.Array.Implode.{
  string, text_at, held, append_val, put_val, implode_loop, array_implode_alloc,
}

-- The values of the slots, each behind the separator.
abbrev pub with_sep : Bytes → Option Bytes → Bytes
with_sep sep none = []
with_sep sep (some val) = sep ++ val

abbrev pub separated : Bytes → List Slot → Bytes
separated sep [] = []
separated sep (s ∷ slots) = with_sep sep (held s) ++ separated sep slots

-- No value is longer than 1024 bytes with the separator.
abbrev pub Short : Bytes → List Slot → Type 0
Short sep [] = Unit
Short sep (s ∷ slots) = (length sep + length (text_at (held s)) ≤ 1024) × Short sep slots

-- What append_val leaves: the text with the value, in a block with room for its end.
append_val-room :
    (room : ℕ → Bool) (sep : Bytes) (size : ℕ) (res val : Bytes)
    → ((n : ℕ) → room n ≡ true)
    → 1024 ≤ size
    → length res < size
    → length sep + length val ≤ 1024
    → length res + (length sep + length val) < 2 ^ 30
    → (size' : ℕ) × (append_val room sep size res val ≡ ok (some (res ++ (sep ++ val), size')))
      × (1024 ≤ size')
      × (length res + (length sep + length val) < size')
unfolding append_val
append_val-room room sep size res val has_room big inside short fits =
    let total = length-append sep val in
    elim (Bool-cases (leb (size - length res) (length sep + length val))) [
      | inl tight ↦
          let less : size - length res ≤ length sep + length val = ground arith in
          let in_range : leb (2 ^ 30) size ≡ false = ground arith in
          (
            size * 2,
            rw
                (
                  tight,
                  in_range,
                  has_room (size * 2),
                  take-all (size * 2 - length res - 1) (sep ++ val) (rw total (omega arith)),
                )
                refl,
            omega arith,
            omega arith,
          )
      | inr loose ↦
          let more : length sep + length val < size - length res = ground arith in
          (
            size,
            rw (loose, take-all (size - length res - 1) (sep ++ val) (rw total (omega arith))) refl,
            big,
            omega arith,
          )
    ]

held-cases : (o : Option Bytes) → (o ≡ none) ⊎ ((val : Bytes) × (o ≡ some val))
held-cases none = inl refl
held-cases (some val) = inr (val, refl)

implode_loop-separated :
    (room : ℕ → Bool) (sep : Bytes) (slots : List Slot) (size : ℕ) (res : Bytes)
    → ((n : ℕ) → room n ≡ true)
    → 1024 ≤ size
    → length res < size
    → Short sep slots
    → length res + length (separated sep slots) < 2 ^ 30
    → implode_loop room sep false slots size (some res) ≡ ok (string (res ++ separated sep slots))
unfolding implode_loop put_val
implode_loop-separated room sep [] size res has_room big inside short fits =
    ap (λ (t : Bytes). ok (string t)) (sym (append-nil res))
implode_loop-separated room sep (s ∷ slots) size res has_room big inside short fits =
    elim (held-cases (held s)) [
      | inl e ↦
          let short' = short.1 in
          rw (implode_loop, e)
            (implode_loop-separated room sep slots size res has_room big inside short' (
              subst (λ o. length res + length (with_sep sep o ++ separated sep slots) < 2 ^ 30) e
                fits))
      | inr (val, e) ↦
          let fits' : length res + length ((sep ++ val) ++ separated sep slots) < 2 ^ 30 =
            subst (λ o. length res + length (with_sep sep o ++ separated sep slots) < 2 ^ 30) e
              fits in
          let short' : length sep + length val ≤ 1024 =
            subst (λ o. length sep + length (text_at o) ≤ 1024) e short.0 in
          let total = length-append (sep ++ val) (separated sep slots) in
          let total' = length-append sep val in
          let total'' = length-append res (sep ++ val) in
          let (size', stored, big', inside') =
            append_val-room room sep size res val has_room big inside short' (omega arith) in
          rw (implode_loop, e, put_val, stored)
            (implode_loop-separated room sep slots size' (res ++ (sep ++ val)) has_room big'
                (omega arith) short.1 (omega arith)
              ∙ ap (λ (t : Bytes). ok (string t))
                  (append_assoc res (sep ++ val) (separated sep slots)))
    ]

-- With all allocations, a value of fewer than 1024 bytes in slot 0 and no other value that has more
-- than 1024 bytes with the separator, array_implode_alloc gives the values in the order of their slots, the separator
-- before each but the first. The text has fewer than 2 ^ 30 bytes, and the first size does not
-- wrap.
pub array_implode_alloc-joins :
    (room : ℕ → Bool) (sep : Bytes) (a : Array) (s : Slot) (slots : List Slot) (val : Bytes)
    → ((n : ℕ) → room n ≡ true)
    → 0 < a.n
    → a.slots ≡ s ∷ slots
    → held s ≡ some val
    → length val < 1024
    → Short sep slots
    → 1024 + length sep * a.size < 2 ^ 32
    → length val + length (separated sep slots) < 2 ^ 30
    → array_implode_alloc room sep a ≡ ok (string (val ++ separated sep slots))
unfolding array_implode_alloc implode_loop put_val
array_implode_alloc-joins room sep a s slots val has_room some_vals whole first short_first short
      no_wrap fits =
    let counted : (a.n == 0) ≡ false = ground arith in
    let size_is : u32 (1024 + length sep * a.size) ≡ 1024 + length sep * a.size = omega arith in
    rw
      (
        counted,
        size_is,
        has_room (1024 + length sep * a.size),
        whole,
        implode_loop,
        first,
        put_val,
        take-all (1024 + length sep * a.size - 1) val (omega arith),
      )
      (implode_loop-separated room sep slots (1024 + length sep * a.size) val has_room (omega arith)
        (omega arith) short fits)
