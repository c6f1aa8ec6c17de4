-- ===== src/Scdb/Table/View.antt =====
-- A table seen from one of its cells on: the cells in the order in which a search meets them.
use mathlib.Core.List.{append_assoc, append-nil}
use code_notebook.Base.{
  ℕ, zero, suc, ◌+◌, ◌-◌, ◌≤◌, ◌<◌, ◌≡◌, refl, sym, ap, ◌∙◌, Bool, true, false, ◌&&◌, not, List, [],
  ◌∷◌, ◌++◌, arith, ltb, leb, ◌==◌, if◌then◌else◌, length, get_or, set, take, drop, length-append,
  length-take, length-drop, take-append-drop, Bool-cases, inl, inr,
}
use code_notebook.Base.Slices.{drop-all}
use code_notebook.Base.Cells.{take-set, take-suc, set-beyond, drop-set}
use code_notebook.Scdb.Make.{Hp}
use code_notebook.Scdb.Table.{free_cell}

abbrev pub is_free : Hp → Bool
is_free c = c.p == 0

-- The cells before the first free one, and the cells from it on.
unfoldable pub run_of : List Hp → List Hp
run_of [] = []
run_of (c ∷ cells) = let more = run_of cells in if is_free c then [] else c ∷ more

unfoldable pub after_run : List Hp → List Hp
after_run [] = []
after_run (c ∷ cells) = let more = after_run cells in if is_free c then c ∷ cells else more

pub run_of-append-after_run : (cells : List Hp) → run_of cells ++ after_run cells ≡ cells
unfolding run_of after_run
run_of-append-after_run [] = refl
run_of-append-after_run (c ∷ cells) = elim (Bool-cases (is_free c)) [
  | inl free ↦ rw free refl
  | inr used ↦ rw used (ap (◌∷◌ c) (run_of-append-after_run cells))
]

-- The used cells with hash `h`.
unfoldable pub with_hash : ℕ → List Hp → List Hp
with_hash h [] = []
with_hash h (c ∷ cells) =
    let more = with_hash h cells in if not (is_free c) && c.h == h then c ∷ more else more

pub with_hash-append :
    (h : ℕ) (a b : List Hp) → with_hash h (a ++ b) ≡ with_hash h a ++ with_hash h b
unfolding with_hash
with_hash-append h [] b = refl
with_hash-append h (c ∷ a) b = elim (Bool-cases (not (is_free c) && c.h == h)) [
  | inl same ↦ rw same (ap (◌∷◌ c) (with_hash-append h a b))
  | inr other ↦ rw other (with_hash-append h a b)
]

-- How many cells are used.
unfoldable pub used : List Hp → ℕ
used [] = 0
used (c ∷ cells) = let more = used cells in if is_free c then more else suc more

pub used-append : (a b : List Hp) → used (a ++ b) ≡ used a + used b
unfolding used
used-append [] b = omega arith
used-append (c ∷ a) b = ground (arith, used-append a b)

pub used-le : (cells : List Hp) → used cells ≤ length cells
unfolding used
used-le [] = omega arith
used-le (c ∷ cells) = ground (arith, used-le cells)

-- A table with a free cell has one behind the run.
pub length-run_of :
    (cells : List Hp) → used cells < length cells → length (run_of cells) < length cells
unfolding used run_of
length-run_of [] h = absurd (omega arith)
length-run_of (c ∷ cells) h = elim (Bool-cases (is_free c)) [
  | inl free ↦ rw free (omega arith)
  | inr taken ↦
      let less : used cells < length cells = ground arith in
      rw taken (omega (arith, length-run_of cells less))
]

-- The run does not see what stands behind a free cell.
pub run_of-append : (a b : List Hp) → length (run_of a) < length a → run_of (a ++ b) ≡ run_of a
unfolding run_of
run_of-append [] b h = absurd (omega arith)
run_of-append (c ∷ a) b h = elim (Bool-cases (is_free c)) [
  | inl free ↦ rw free refl
  | inr taken ↦
      let less : length (run_of a) < length a = ground arith in
      rw taken (ap (◌∷◌ c) (run_of-append a b less))
]

-- From cell `k` on, and round to the cell before it.
abbrev pub view : ℕ → List Hp → List Hp
view k cells = drop k cells ++ take k cells

pub length-view : (k : ℕ) (cells : List Hp) → length (view k cells) ≡ length cells
length-view k cells =
    omega
      (arith, length-append (drop k cells) (take k cells), length-drop k cells, length-take k cells)

pub used-view : (k : ℕ) (cells : List Hp) → used (view k cells) ≡ used cells
used-view k cells = omega (
  arith,
  used-append (drop k cells) (take k cells),
  used-append (take k cells) (drop k cells),
  ap used (take-append-drop k cells),
)

-- Where cell `w` of a table of `len` cells stands in the view from cell `k` on.
abbrev pub position : ℕ → ℕ → ℕ → ℕ
position len k w = if leb k w then w - k else w + len - k

module _ {ℓ} {A : Type ℓ} where
  set-append :
      (a b : List A) (i : ℕ) (x : A)
      → set (a ++ b) i x
        ≡ (if ltb i (length a) then set a i x ++ b else a ++ set b (i - length a) x)
  set-append [] b i x = ground arith
  set-append (y ∷ a) b zero x = ground arith
  set-append (y ∷ a) b (suc i) x = ground (arith, set-append a b i x)

-- A write to the table is a write to the view.
pub view-set :
    (k w : ℕ) (cells : List Hp) (x : Hp)
    → k ≤ length cells
    → w < length cells
    → view k (set cells w x) ≡ set (view k cells) (position (length cells) k w) x
view-set k w cells x hk hw =
    let front = drop-set k cells w x in
    let back = take-set k cells w x in
    let both = set-append (drop k cells) (take k cells) (position (length cells) k w) x in
    let dropped = length-drop k cells in
    let taken = length-take k cells in
    elim (Bool-cases (leb k w)) [
      | inl late ↦
          let inside : ltb (w - k) (length (drop k cells)) ≡ true = ground arith in
          let same : set (take k cells) w x ≡ take k cells =
            set-beyond (take k cells) w x (ground arith) in
          rw (front, back, both, late, inside, same) refl
      | inr early ↦
          let behind : ltb (w + length cells - k) (length (drop k cells)) ≡ false = ground arith in
          let there : w + length cells - k - length (drop k cells) ≡ w = ground arith in
          rw (front, back, both, early, behind, there) refl
    ]

-- The view from the next cell, where the view starts with `c`.
abbrev pub next_cell : ℕ → ℕ → ℕ
next_cell len k = if k + 1 == len then 0 else k + 1

module _ {ℓ} {A : Type ℓ} where
  drop-get_or :
      (k : ℕ) (a : List A) (d : A) → k < length a → drop k a ≡ get_or a k d ∷ drop (suc k) a
  drop-get_or k [] d h = absurd (omega arith)
  drop-get_or zero (x ∷ a) d h = refl
  drop-get_or (suc k) (x ∷ a) d h = drop-get_or k a d (omega arith)

pub view-next_cell :
    (k : ℕ) (cells : List Hp)
    → k < length cells
    → let c = get_or cells k free_cell in
      (t : List Hp) × (view k cells ≡ c ∷ t)
      × (view (next_cell (length cells) k) cells ≡ t ++ c ∷ [])
view-next_cell k cells h =
    let c = get_or cells k free_cell in
    let t = drop (suc k) cells ++ take k cells in
    let here : view k cells ≡ c ∷ t = rw (drop-get_or k cells free_cell h) refl in
    let longer = take-suc k cells free_cell h in
    let moved : view (suc k) cells ≡ t ++ c ∷ [] =
      rw longer (sym (append_assoc (drop (suc k) cells) (take k cells) (c ∷ []))) in
    elim (Bool-cases (k + 1 == length cells)) [
      | inl last ↦
          let none_left : drop (suc k) cells ≡ [] = drop-all (suc k) cells (ground arith) in
          let whole = rw none_left at (take-append-drop (suc k) cells) in
          let all : take (suc k) cells ≡ cells = sym (append-nil (take (suc k) cells)) ∙ whole in
          let round : view (suc k) cells ≡ cells = rw (none_left, all) refl in
          (t, here, rw last (append-nil cells ∙ sym round ∙ moved))
      | inr inner ↦ let up : k + 1 ≡ suc k = omega arith in (t, here, rw (inner, up) moved)
    ]
