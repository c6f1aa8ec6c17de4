-- ===== src/Scdb/Index/Counts.antt =====
-- c->count and c->start: how many entries each table has, and where its part of c->split ends.
use code_notebook.Base.{
  ℕ, zero, suc, ◌+◌, ◌%◌, ◌^◌, ◌≤◌, ◌<◌, ◌≡◌, inl, inr, refl, ap, ◌∙◌, List, [], ◌∷◌, arith, ltb,
  ◌==◌, if◌then◌else◌, length, get_or, set, replicate, length-set, length-replicate, Bool-cases,
}
use code_notebook.Base.Cells.{get_or-set}
use code_notebook.Scdb.Make.{Hp}
use code_notebook.Scdb.Index.{slot, no_counts, count_all, starts_from}
use code_notebook.Scdb.Index.Split.{in_slot, slot-lt}

-- How many entries have a slot below `i`.
unfoldable pub before : ℕ → List Hp → ℕ
before zero hps = 0
before (suc i) hps = before i hps + length (in_slot i hps)

before-cons :
    (i : ℕ) (hp : Hp) (hps : List Hp)
    → before i (hp ∷ hps) ≡ before i hps + (if ltb (slot hp) i then 1 else 0)
unfolding before in_slot
before-cons zero hp hps = ground arith
before-cons (suc i) hp hps = ground (arith, before-cons i hp hps)

pub before-le : (i : ℕ) (hps : List Hp) → before i hps ≤ length hps
unfolding before in_slot
before-le zero [] = omega arith
before-le (suc i) [] = omega (arith, before-le i [])
before-le i (hp ∷ hps) = ground (arith, before-cons i hp hps, before-le i hps)

pub before_mono : (hps : List Hp) (i k : ℕ) → before i hps ≤ before (i + k) hps
unfolding before
before_mono hps i zero = let e : i + 0 ≡ i = omega arith in rw e (omega arith)
before_mono hps i (suc k) =
    let e : i + suc k ≡ suc (i + k) = omega arith in rw e (omega (arith, before_mono hps i k))

pub length-count_all :
    (hps : List Hp) (count : List ℕ) → length (count_all hps count) ≡ length count
unfolding count_all
length-count_all [] count = refl
length-count_all (hp ∷ hps) count = length-count_all hps _ ∙ length-set count (slot hp) _

pub get_or-count_all :
    (hps : List Hp) (count : List ℕ) (i : ℕ)
    → length count ≡ 256
    → get_or count i 0 + length (in_slot i hps) < 2 ^ 32
    → get_or (count_all hps count) i 0 ≡ get_or count i 0 + length (in_slot i hps)
unfolding count_all in_slot
get_or-count_all [] count i size small = omega arith
get_or-count_all (hp ∷ hps) count i size small =
    let more = (get_or count (slot hp) 0 + 1) % 2 ^ 32 in
    let now = get_or-set count (slot hp) i more 0 (omega (arith, slot-lt hp)) in
    let size' = length-set count (slot hp) more ∙ size in
    elim (Bool-cases (slot hp == i)) [
      | inl same ↦
          let e : slot hp ≡ i = ground arith in
          let count_here : get_or count (slot hp) 0 ≡ get_or count i 0 =
            ap (λ (k : ℕ). get_or count k 0) e in
          let less = rw same at small in
          let new = rw same at now in
          let later = get_or-count_all hps (set count (slot hp) more) i size' (omega arith) in
          rw same (omega (arith, later))
      | inr other ↦
          let less = rw other at small in
          let new = rw other at now in
          let later = get_or-count_all hps (set count (slot hp) more) i size' (omega arith) in
          rw other (omega (arith, later))
    ]

pub get_or-starts_from :
    (hps : List Hp) (count : List ℕ) (u k i : ℕ)
    → length hps < 2 ^ 32
    → ((j m : ℕ) → j < length count → m ≡ k + j → get_or count j 0 ≡ length (in_slot m hps))
    → u ≡ before k hps
    → i < length count
    → get_or (starts_from u count) i 0 ≡ before (suc (k + i)) hps
unfolding starts_from before
get_or-starts_from hps [] u k i small counts sum inside = absurd (omega arith)
get_or-starts_from hps (n ∷ count) u k zero small counts sum inside =
    let one = counts 0 k (omega arith) (omega arith) in
    let now : (u + n) % 2 ^ 32 ≡ before (suc k) hps = omega (arith, before-le (suc k) hps) in
    let e : k + 0 ≡ k = omega arith in rw e now
get_or-starts_from hps (n ∷ count) u k (suc i) small counts sum inside =
    let one = counts 0 k (omega arith) (omega arith) in
    let now : (u + n) % 2 ^ 32 ≡ before (suc k) hps = omega (arith, before-le (suc k) hps) in
    let e : k + suc i ≡ suc k + i = omega arith in
    rw e (
      get_or-starts_from hps count ((u + n) % 2 ^ 32) (suc k) i small
        (λ j m less same. counts (suc j) m (omega arith) (omega arith)) now (omega arith))

pub length-starts_from : (count : List ℕ) (u : ℕ) → length (starts_from u count) ≡ length count
unfolding starts_from
length-starts_from [] u = refl
length-starts_from (n ∷ count) u = ap suc (length-starts_from count ((u + n) % 2 ^ 32))

pub length-no_counts : length no_counts ≡ 256
unfolding no_counts
length-no_counts = length-replicate {A = ℕ} 256 0

get_or-replicate : (n i : ℕ) → get_or {A = ℕ} (replicate n 0) i 0 ≡ 0
get_or-replicate zero i = refl
get_or-replicate (suc n) zero = refl
get_or-replicate (suc n) (suc i) = get_or-replicate n i

pub get_or-no_counts : (i : ℕ) → get_or no_counts i 0 ≡ 0
unfolding no_counts
get_or-no_counts i = get_or-replicate 256 i
