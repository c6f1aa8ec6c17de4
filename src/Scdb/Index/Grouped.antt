-- ===== src/Scdb/Index/Grouped.antt =====
-- The counts, the starts and c->split together: each table finds its entries.
use mathlib.Core.List.{
  append_assoc, append-nil, reverse, reverse-append, reverse-reverse, reverse-cons,
}
use code_notebook.Base.{
  ℕ, suc, ◌+◌, ◌-◌, ◌^◌, ◌≤◌, ◌<◌, ◌≡◌, inl, inr, refl, sym, ap, ◌∙◌, true, List, [], ◌∷◌, ◌++◌,
  arith, leb, ◌==◌, if◌then◌else◌, length, get_or, length-append, Bool-cases,
}
use code_notebook.Run.{ok, Ends, Ends-weaken}
use code_notebook.Scdb.Make.{Hp}
use code_notebook.Scdb.Make.Records.{entries}
use code_notebook.Scdb.Index.{
  slot, visited, no_counts, count_all, starts_from, split_all, entries_at,
}
use code_notebook.Scdb.Index.Split.{in_slot, gather, Apart, Splitting, split_all-Splitting}
use code_notebook.Scdb.Index.Counts.{
  before, before-le, before_mono, length-count_all, get_or-count_all, get_or-starts_from,
  length-starts_from, length-no_counts, get_or-no_counts,
}

in_slot-append : (i : ℕ) (a b : List Hp) → in_slot i (a ++ b) ≡ in_slot i a ++ in_slot i b
unfolding in_slot
in_slot-append i [] b = refl
in_slot-append i (hp ∷ a) b = elim (Bool-cases (slot hp == i)) [
  | inl same ↦ rw same (ap (◌∷◌ hp) (in_slot-append i a b))
  | inr other ↦ rw other (in_slot-append i a b)
]

gather-in_slot : (i : ℕ) (hps out : List Hp) → gather i hps out ≡ in_slot i (reverse hps) ++ out
unfolding gather in_slot
gather-in_slot i [] out = refl
gather-in_slot i (hp ∷ hps) out =
    gather-in_slot i hps (if slot hp == i then hp ∷ out else out) ∙ moved
  where
    moved :
        in_slot i (reverse hps) ++ (if slot hp == i then hp ∷ out else out)
        ≡ in_slot i (reverse (hp ∷ hps)) ++ out
    moved = elim (Bool-cases (slot hp == i)) [
      | inl same ↦
          rw (reverse-cons hp hps, in_slot-append i (reverse hps) (hp ∷ []), same)
            (sym (append_assoc (in_slot i (reverse hps)) (hp ∷ []) out))
      | inr other ↦
          rw (reverse-cons hp hps, in_slot-append i (reverse hps) (hp ∷ []), other)
            (sym (append_assoc (in_slot i (reverse hps)) [] out))
    ]

pub visited-entries : (head : List (List Hp)) → visited head ≡ reverse (entries head)
unfolding visited entries
visited-entries [] = refl
visited-entries (node ∷ next) = rw (visited-entries next) (sym (reverse-append (entries next) node))

pub length-reverse : (hps : List Hp) → length (reverse hps) ≡ length hps
length-reverse [] = refl
length-reverse (hp ∷ hps) = omega (
  arith,
  ap length (reverse-cons hp hps),
  length-append (reverse hps) (hp ∷ []),
  length-reverse hps,
)

module _ (hps : List Hp) (split : List Hp) (room : length hps ≤ length split)
    (small : length split < 2 ^ 32) where
  abbrev pub counts : List ℕ
  counts = count_all hps no_counts

  pub count_of : (i : ℕ) → i < 256 → get_or counts i 0 ≡ length (in_slot i hps)
  unfolding before
  count_of i h = omega (
    arith,
    get_or-no_counts i,
    get_or-count_all hps no_counts i length-no_counts
        (omega (arith, get_or-no_counts i, before-le (suc i) hps)),
  )

  size : length counts ≡ 256
  size = length-count_all hps no_counts ∙ length-no_counts

  split-Apart : Apart (λ i. before i hps) (λ i. before (suc i) hps) (length split)
  split-Apart = record {
    ordered = λ i j less.
        (let e : suc i + (j - suc i) ≡ j = omega arith in
          rw e at (before_mono hps (suc i) (j - suc i)));
    inside = λ i h. omega (arith, before-le (suc i) hps, room);
    small = small;
  }

  start_of : (i : ℕ) → i < 256 → get_or (starts_from 0 counts) i 0 ≡ before (suc i) hps
  unfolding before
  start_of i h =
      get_or-starts_from hps counts 0 0 i (omega (arith, room, small))
        (λ j m less same. (let e : m ≡ j = omega arith in rw e (count_of j (omega (arith, size)))))
        refl (omega (arith, size))
      ∙ (let e : 0 + i ≡ i = omega arith in rw e refl)

  begun-Splitting :
      Splitting
        (λ i. before i hps)
        (λ i. before (suc i) hps)
        (length split)
        hps
        (starts_from 0 counts)
        split
        (λ i. [])
  unfolding before
  begun-Splitting = record {
    starts = length-starts_from counts 0 ∙ size;
    cells = refl;
    left = λ i h. start_of i h;
    fits = λ i h. omega (arith, start_of i h);
    filled = λ i h.
        (let gap : before (suc i) hps - before (suc i) hps ≡ 0 = omega arith in
          rw (start_of i h, gap) refl);
  }

  -- What the table of slot `i` gets.
  grouped :
      (start : List ℕ) (split' : List Hp)
      → Splitting
          (λ i. before i hps)
          (λ i. before (suc i) hps)
          (length split)
          []
          start
          split'
          (λ i. gather i hps [])
      → (i : ℕ) → i < 256
      → entries_at split' (get_or start i 0) (get_or counts i 0) ≡ ok (in_slot i (reverse hps))
  unfolding before entries_at in_slot
  grouped start split' inv i h =
      let s = inv.left i h in
      let n = count_of i h in
      let filled = inv.filled i h in
      let inside : leb (get_or start i 0 + get_or counts i 0) (length split') ≡ true =
        ground (arith, before-le (suc i) hps, inv.cells, room) in
      let size_of : before (suc i) hps - get_or start i 0 ≡ get_or counts i 0 = omega (arith) in
      rw inside (
        ap ok
          ((rw size_of at filled) ∙ gather-in_slot i hps [] ∙ append-nil (in_slot i (reverse hps))))

-- When c->split has room for all entries, of which there are fewer than 2 ^ 32, the loops that
-- count, sum and split stay inside their arrays; and each of the 256 tables then finds, from its
-- start on and as many as its count says, the entries of its slot in the order of their addition.
pub split_all-groups :
    (head : List (List Hp)) (split : List Hp)
    → length (entries head) ≤ length split
    → length split < 2 ^ 32
    → Ends
        (λ r.
          (i : ℕ)
          → i < 256
          → entries_at r.1 (get_or r.0 i 0) (get_or (count_all (visited head) no_counts) i 0)
            ≡ ok (in_slot i (entries head)))
        (split_all (visited head) (starts_from 0 (count_all (visited head) no_counts)) split)
split_all-groups head split room small =
    let hps = visited head in
    let enough : length (visited head) ≤ length split =
      rw (visited-entries head) (omega (arith, length-reverse (entries head))) in
    let back : reverse hps ≡ entries head =
      ap reverse (visited-entries head) ∙ reverse-reverse (entries head) in
    Ends-weaken
      (λ r inv i h.
        grouped hps split enough small r.0 r.1 inv i h
        ∙ ap (λ (t : List Hp). ok (in_slot i t)) back)
      (split_all-Splitting _ _ (length split) (split-Apart hps split enough small) hps
        (starts_from 0 (count_all hps no_counts)) split (λ i. [])
        (begun-Splitting hps split enough small))
