-- ===== src/Prioq/Order.antt =====
-- The heap order of the first `n` cells, and that order around one cell that is left open.
use mathlib.Core.List.{Perm}
use code_notebook.Base.{ℕ, ◌≤◌, ◌<◌, ◌≡◌, ◌≢◌, List, arith, length, get_or, set, take, length-take}
use code_notebook.Base.Cells.{get_or-set, get_or-take, take-set, move-perm}
use code_notebook.Prioq.{Elt, parent}

abbrev pub blank : Elt
blank = record { id = 0; dt = 0 }

abbrev pub at : List Elt → ℕ → Elt
at b i = get_or b i blank

abbrev pub key : List Elt → ℕ → ℕ
key b i = (at b i).dt

-- Every entry below `n` but the first comes no sooner than its parent.
abbrev pub IsHeap : ℕ → List Elt → Type 0
IsHeap n b = (c : ℕ) → 0 < c → c < n → key b (parent c) ≤ key b c

-- The order of all entries but `j`: what cell `j` holds does not matter.
pub record IsOpen (n : ℕ) (b : List Elt) (j : ℕ) : Type 0 where
  pub apart : (c : ℕ) → 0 < c → c < n → c ≢ j → parent c ≢ j → key b (parent c) ≤ key b c
  pub across : (c : ℕ) → 0 < c → c < n → parent c ≡ j → 0 < j → key b (parent j) ≤ key b c

abbrev pub Below : ℕ → List Elt → ℕ → ℕ → Type 0
Below n b j d = (c : ℕ) → 0 < c → c < n → parent c ≡ j → d ≤ key b c

-- Once filled by what fits between the parent and the children of `j`, the heap is whole.
pub fill :
    (n : ℕ) (b : List Elt) (j : ℕ) (e : Elt)
    → j < length b
    → IsOpen n b j
    → (0 < j → key b (parent j) ≤ e.dt)
    → Below n b j e.dt
    → IsHeap n (set b j e)
fill n b j e inside open_at above below c pos lt = ground (
  arith,
  get_or-set b j c e blank inside,
  get_or-set b j (parent c) e blank inside,
  open_at.apart c pos lt,
  above,
  below c pos lt,
)

-- A write at `j` and then at `i` rearranges what a write at `j` gives, if `i` moved to `j`.
pub shift-perm :
    (n : ℕ) (b : List Elt) (i j : ℕ) (v : Elt)
    → i ≢ j
    → i < n
    → j < n
    → n ≤ length b
    → Perm (take n (set (set b j (at b i)) i v)) (take n (set b j v))
shift-perm n b i j v ne hi hj hn =
    let size : length (take n b) ≡ n = omega (arith, length-take n b) in
    rw
      (
        take-set n (set b j (at b i)) i v,
        take-set n b j (at b i),
        take-set n b j v,
        ← get_or-take n b i blank hi,
      )
      (move-perm (take n b) i j v blank ne (rw size hi) (rw size hj))
