-- ===== src/Scdb/Table/Fill.antt =====
-- One cell of a table is filled: the search for it, and what the searches meet afterwards.
use code_notebook.Base.{
  ℕ, zero, suc, ◌<◌, ◌≡◌, ◌≢◌, refl, sym, ap, ◌∙◌, true, false, List, [], ◌∷◌, ◌++◌, arith, ◌==◌,
  length, get_or, set, Bool-cases, inl, inr,
}
use code_notebook.Base.Cells.{get_elem?-get_or}
use code_notebook.Run.{ok}
use code_notebook.Scdb.Make.{Hp}
use code_notebook.Scdb.Table.{free_cell, probe}
use code_notebook.Scdb.Table.View.{
  is_free, run_of, after_run, run_of-append-after_run, with_hash, with_hash-append, used,
  length-run_of, run_of-append, view, length-view, used-view, position, next_cell, view-next_cell,
}

-- The search for a free cell from cell `k` on ends at the first free cell of the view.
abbrev pub Found : List Hp → ℕ → ℕ → Type 0
Found cells k w =
    (w < length cells)
    × (position (length cells) k w ≡ length (run_of (view k cells)))
    × (is_free (get_or cells w free_cell) ≡ true)

pub probe-Found :
    (fuel : ℕ) (cells : List Hp) (k : ℕ)
    → k < length cells
    → used cells < length cells
    → length (run_of (view k cells)) < fuel
    → (w : ℕ) × (probe fuel cells k ≡ ok w) × Found cells k w
unfolding probe run_of used
probe-Found zero cells k inside room enough = absurd (omega arith)
probe-Found (suc fuel) cells k inside room enough =
    let c = get_or cells k free_cell in
    let read = get_elem?-get_or cells k free_cell inside in
    let (t, here, turned) = view-next_cell k cells inside in
    let size : suc (length t) ≡ length cells = omega (arith, length-view k cells, ap length here) in
    elim (Bool-cases (is_free c)) [
      | inl free ↦
          let run : length (run_of (view k cells)) ≡ 0 = rw (here, free, run_of) refl in
          (k, rw (read, free, probe) refl, (inside, ground (arith, run), free))
      | inr taken ↦
          let run : length (run_of (view k cells)) ≡ suc (length (run_of t)) =
            rw (here, taken, run_of) refl in
          let count : used (view k cells) ≡ suc (used t) = rw (here, taken, used) refl in
          let shorter = length-run_of t (omega (arith, count, used-view k cells)) in
          let same : length (run_of (view (next_cell (length cells) k) cells)) ≡ length (run_of t) =
            rw turned (ap length (run_of-append t (c ∷ []) shorter)) in
          let (w, found, (in_table, at_run, free)) =
            probe-Found fuel cells (next_cell (length cells) k) (ground arith) room (omega arith) in
          (w, rw (read, taken, probe) found, (in_table, ground arith, free))
    ]

-- What a search for hash `h` meets, and what lies behind the first free cell.
abbrev pub Reaches : ℕ → List Hp → List Hp → Type 0
Reaches h v added = (with_hash h (run_of v) ≡ with_hash h added) × (with_hash h (after_run v) ≡ [])

with_hash-free :
    (h : ℕ) (c : Hp) (v : List Hp) → is_free c ≡ true → with_hash h (c ∷ v) ≡ with_hash h v
unfolding with_hash
with_hash-free h c v free = rw free refl

-- A free cell that is no longer free.
with_hash-set_other :
    (h : ℕ) (v : List Hp) (j : ℕ) (hp : Hp)
    → j < length v
    → is_free (get_or v j free_cell) ≡ true
    → hp.h ≢ h
    → with_hash h (set v j hp) ≡ with_hash h v
unfolding with_hash
with_hash-set_other h [] j hp inside free other = refl
with_hash-set_other h (c ∷ v) zero hp inside free other = ground (arith, with_hash)
with_hash-set_other h (c ∷ v) (suc j) hp inside free other =
    ground (arith, with_hash-set_other h v j hp (omega arith) free other)

nothing_left : (a b : List Hp) → a ++ b ≡ [] → (a ≡ []) × (b ≡ [])
nothing_left [] b e = (refl, e)
nothing_left (x ∷ a) b e = absurd (cc (e))

-- Where no cell has hash `h`, none does on either side of the first free cell.
pub without_hash :
    (h : ℕ) (v : List Hp)
    → with_hash h v ≡ []
    → (with_hash h (run_of v) ≡ []) × (with_hash h (after_run v) ≡ [])
without_hash h v none_there = nothing_left (with_hash h (run_of v)) (with_hash h (after_run v)) (
    sym (with_hash-append h (run_of v) (after_run v))
    ∙ ap (with_hash h) (run_of-append-after_run v)
    ∙ none_there)

pub filled-Reaches :
    (h : ℕ) (v : List Hp) (j : ℕ) (hp : Hp)
    → j < length v
    → is_free (get_or v j free_cell) ≡ true
    → is_free hp ≡ false
    → (hp.h ≡ h → j ≡ length (run_of v))
    → with_hash h (after_run v) ≡ []
    → (with_hash h (run_of (set v j hp)) ≡ with_hash h (run_of v) ++ with_hash h (hp ∷ []))
      × (with_hash h (after_run (set v j hp)) ≡ [])
unfolding with_hash run_of after_run
filled-Reaches h [] j hp inside free full first none_behind = absurd (omega arith)
filled-Reaches h (c ∷ v) zero hp inside free full first none_behind =
    let none_later : with_hash h v ≡ [] =
      sym (with_hash-free h c v free) ∙ (rw (free, after_run) at none_behind) in
    let (in_run, behind) = without_hash h v none_later in
    elim (Bool-cases (hp.h == h)) [
      | inl same ↦ (rw (full, free) (rw (full, same, in_run) refl), rw full behind)
      | inr other ↦ (rw (full, free) (rw (full, other, in_run) refl), rw full behind)
    ]
filled-Reaches h (c ∷ v) (suc j) hp inside free full first none_behind =
    elim (Bool-cases (is_free c)) [
      | inl free_c ↦
          let no_run : length (run_of (c ∷ v)) ≡ 0 = rw free_c refl in
          let other : hp.h ≢ h = λ e. absurd (omega (arith, first e)) in
          let differs : (hp.h == h) ≡ false = ground (arith, other) in
          let none_later : with_hash h v ≡ [] =
            sym (with_hash-free h c v free_c) ∙ (rw (free_c, after_run) at none_behind) in
          (
            rw (free_c, full, differs) refl,
            rw free_c (
                with_hash-free h c (set v j hp) free_c
                ∙ with_hash-set_other h v j hp (omega arith) free other
                ∙ none_later),
          )
      | inr taken ↦
          let run : length (run_of (c ∷ v)) ≡ suc (length (run_of v)) = rw taken refl in
          let (found, behind) =
            filled-Reaches h v j hp (omega arith) free full (λ e. omega (arith, first e))
              (rw (taken, after_run) at none_behind) in
          elim (Bool-cases (c.h == h)) [
            | inl same ↦ (rw taken (rw (taken, same) (ap (◌∷◌ c) found)), rw taken behind)
            | inr other ↦ (rw taken (rw (taken, other) found), rw taken behind)
          ]
    ]
