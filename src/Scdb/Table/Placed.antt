-- ===== src/Scdb/Table/Placed.antt =====
-- What a table holds after its cells were filled.
use native.Mathlib.Nat.{mod-lt}
use mathlib.Core.List.{append_assoc, append-nil}
use code_notebook.Base.{
  ℕ, zero, suc, ◌+◌, ◌-◌, ◌/◌, ◌^◌, ◌≤◌, ◌<◌, ◌≡◌, refl, sym, ap, ◌∙◌, true, false, List, [], ◌∷◌,
  ◌++◌, arith, ltb, leb, if◌then◌else◌, length, get_or, set, replicate, take, drop, length-append,
  length-drop, length-set, length-replicate, Bool-cases, inl, inr,
}
use code_notebook.Base.Cells.{get_or-take}
use code_notebook.Run.{ok}
use code_notebook.Scdb.Make.{Hp}
use code_notebook.Scdb.Table.{free_cell, home, place, place_all, table_of}
use code_notebook.Scdb.Table.View.{
  is_free, run_of, after_run, with_hash, with_hash-append, used, length-run_of, view, length-view,
  used-view, position, view-set,
}
use code_notebook.Scdb.Table.Fill.{Found, probe-Found, filled-Reaches, without_hash}

-- The search for each hash, from its home on, meets those of `added` that have the hash.
pub record Holds (cells added : List Hp) : Type 0 where
  pub met : (h : ℕ) → with_hash h (run_of (view (home (length cells) h) cells)) ≡ with_hash h added
  pub behind : (h : ℕ) → with_hash h (after_run (view (home (length cells) h) cells)) ≡ []
  pub count : used cells ≡ length added

used-set :
    (cells : List Hp) (w : ℕ) (hp : Hp)
    → w < length cells
    → is_free (get_or cells w free_cell) ≡ true
    → is_free hp ≡ false
    → used (set cells w hp) ≡ suc (used cells)
unfolding used
used-set [] w hp inside free full = absurd (omega arith)
used-set (c ∷ cells) zero hp inside free full = rw (free, full) refl
used-set (c ∷ cells) (suc w) hp inside free full =
    ground (arith, used-set cells w hp (omega arith) free full)

module _ {ℓ} {A : Type ℓ} where
  get_or-drop : (k i : ℕ) (a : List A) (d : A) → get_or (drop k a) i d ≡ get_or a (k + i) d
  get_or-drop zero i a d = let none_more : 0 + i ≡ i = omega arith in rw none_more refl
  get_or-drop (suc k) i [] d = refl
  get_or-drop (suc k) i (x ∷ a) d =
      let one_more : suc k + i ≡ suc (k + i) = omega arith in rw one_more (get_or-drop k i a d)

  get_or-append :
      (a b : List A) (i : ℕ) (d : A)
      → get_or (a ++ b) i d ≡ (if ltb i (length a) then get_or a i d else get_or b (i - length a) d)
  get_or-append [] b i d = ground arith
  get_or-append (x ∷ a) b zero d = ground arith
  get_or-append (x ∷ a) b (suc i) d = ground (arith, get_or-append a b i d)

get_or-view :
    (k w : ℕ) (cells : List Hp)
    → k ≤ length cells
    → w < length cells
    → get_or (view k cells) (position (length cells) k w) free_cell ≡ get_or cells w free_cell
get_or-view k w cells hk hw =
    let split =
      get_or-append (drop k cells) (take k cells) (position (length cells) k w) free_cell in
    let dropped = length-drop k cells in
    elim (Bool-cases (leb k w)) [
      | inl late ↦
          let inside : ltb (w - k) (length (drop k cells)) ≡ true = ground arith in
          let there : k + (w - k) ≡ w = ground arith in
          rw (split, late, inside, get_or-drop k (w - k) cells free_cell, there) refl
      | inr early ↦
          let behind : ltb (w + length cells - k) (length (drop k cells)) ≡ false = ground arith in
          let there : w + length cells - k - length (drop k cells) ≡ w = ground arith in
          rw (split, early, behind, there) (get_or-take k cells w free_cell (ground arith))
    ]

-- The first free cell from the home of `hp` on takes it.
set-Holds :
    (cells added : List Hp) (hp : Hp) (w : ℕ)
    → is_free hp ≡ false
    → Found cells (home (length cells) hp.h) w
    → Holds cells added
    → Holds (set cells w hp) (added ++ hp ∷ [])
set-Holds cells added hp w full (inside, at_run, free) holds =
    let len = length cells in
    let low : (h : ℕ) → home len h < len = λ h. mod-lt (h / 2 ^ 8) (omega arith) in
    let v : ℕ → List Hp = λ h. view (home len h) cells in
    let moved : (h : ℕ)
        → view (home len h) (set cells w hp) ≡ set (v h) (position len (home len h) w) hp =
      λ h. view-set (home len h) w cells hp (omega (arith, low h)) inside in
    let size : length (set cells w hp) ≡ len = length-set cells w hp in
    let each = λ (h : ℕ).
      filled-Reaches h (v h) (position len (home len h) w) hp
        (ground (arith, low h, length-view (home len h) cells))
        (ap is_free (get_or-view (home len h) w cells (omega (arith, low h)) inside) ∙ free) full
        (λ e.
          ap (λ (g : ℕ). position len (home len g) w) (sym e)
          ∙ at_run
          ∙ ap (λ (g : ℕ). length (run_of (v g))) e)
        (holds.behind h) in
    record {
      met = λ h.
          rw (size, moved h)
            ((each h).0
              ∙ ap (λ (t : List Hp). t ++ with_hash h (hp ∷ [])) (holds.met h)
              ∙ sym (with_hash-append h added (hp ∷ [])));
      behind = λ h. rw (size, moved h) (each h).1;
      count =
          omega (
            arith,
            used-set cells w hp inside free full,
            length-append added (hp ∷ []),
            holds.count,
          );
    }

pub place-Holds :
    (cells added : List Hp) (hp : Hp)
    → is_free hp ≡ false
    → length added < length cells
    → Holds cells added
    → (w : ℕ) × (place cells hp ≡ ok (set cells w hp)) × Holds (set cells w hp) (added ++ hp ∷ [])
unfolding place
place-Holds cells added hp full room holds =
    let k = home (length cells) hp.h in
    let (w, found, there) =
      probe-Found (length cells + 1) cells k (mod-lt (hp.h / 2 ^ 8) (omega arith))
        (omega (arith, holds.count))
        (omega (
          arith,
          length-run_of (view k cells)
              (omega (arith, holds.count, used-view k cells, length-view k cells)),
          length-view k cells,
        )) in
    (w, rw found refl, set-Holds cells added hp w full there holds)

-- Every entry has a place in the file.
abbrev pub AllUsed : List Hp → Type 0
AllUsed [] = Unit
AllUsed (hp ∷ hps) = (is_free hp ≡ false) × AllUsed hps

place_all-Holds :
    (hps cells added : List Hp)
    → AllUsed hps
    → length added + length hps ≤ length cells
    → Holds cells added
    → (cells' : List Hp) × (place_all cells hps ≡ ok cells')
      × (length cells' ≡ length cells)
      × Holds cells' (added ++ hps)
unfolding place_all
place_all-Holds [] cells added full room holds = (cells, refl, refl, rw (append-nil added) holds)
place_all-Holds (hp ∷ hps) cells added (full, rest) room holds =
    let (w, placed, next) = place-Holds cells added hp full (omega arith) holds in
    let size = length-set cells w hp in
    let (cells', all, same, held) =
      place_all-Holds hps (set cells w hp) (added ++ hp ∷ []) rest
        (omega (arith, size, length-append added (hp ∷ []))) next in
    (cells', rw placed all, same ∙ size, rw (append_assoc added (hp ∷ []) hps) at held)

used-replicate : (n : ℕ) → used (replicate n free_cell) ≡ 0
unfolding used
used-replicate zero = refl
used-replicate (suc n) = used-replicate n

with_hash-unused : (h : ℕ) (v : List Hp) → used v ≡ 0 → with_hash h v ≡ []
unfolding used with_hash
with_hash-unused h [] e = refl
with_hash-unused h (c ∷ v) e = elim (Bool-cases (is_free c)) [
  | inl free ↦ rw free (with_hash-unused h v (rw free at e))
  | inr taken ↦ absurd (ground arith)
]

empty-Holds : (n : ℕ) → Holds (replicate n free_cell) []
unfolding with_hash
empty-Holds n =
    let cells = replicate n free_cell in
    let nothing = λ (h : ℕ).
      without_hash h (view (home (length cells) h) cells)
        (with_hash-unused h _ (used-view (home (length cells) h) cells ∙ used-replicate n)) in
    record { met = λ h. (nothing h).0; behind = λ h. (nothing h).1; count = used-replicate n }

-- When every entry has a nonzero place and there are enough cells, filling a table of `len` cells
-- ends and stays inside it; and from the home of any hash on, the cells up to the first free one
-- hold, of the entries with that hash, all and in the order in which they were added.
pub table_of-holds :
    (len : ℕ) (hps : List Hp)
    → AllUsed hps
    → length hps ≤ len
    → (cells : List Hp) × (table_of len hps ≡ ok cells)
      × (length cells ≡ len)
      × ((h : ℕ) → with_hash h (run_of (view (home (length cells) h) cells)) ≡ with_hash h hps)
unfolding table_of
table_of-holds len hps full room =
    let size = length-replicate len free_cell in
    let (cells, all, same, holds) =
      place_all-Holds hps (replicate len free_cell) [] full (omega arith) (empty-Holds len) in
    (cells, all, omega arith, holds.met)
