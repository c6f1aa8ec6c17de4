-- ===== src/Scdb/Index/Room.antt =====
-- scdb_make_finish: its arrays are large enough for every table.
use code_notebook.Base.{
  ℕ, zero, suc, ◌+◌, ◌-◌, ◌*◌, ◌%◌, ◌^◌, ◌≤◌, ◌<◌, ◌≡◌, refl, sym, ap, ◌∙◌, List, [], ◌∷◌, arith,
  leb, leb→le, ltb, ltb→lt, ◌==◌, if-cases, length, get_or, drop, length-take, length-drop,
  length-set, set,
}
use code_notebook.Run.{Run, ok, fault}
use code_notebook.Scdb.Make.{Hp}
use code_notebook.Scdb.Table.Placed.{AllUsed}
use code_notebook.Scdb.Index.{slot, largest, split_all, entries_at}
use code_notebook.Scdb.Index.Split.{in_slot}
use code_notebook.Scdb.Index.Counts.{before}
use code_notebook.Scdb.Index.Written.{Parts, no_parts, part_of, room_for}
use code_notebook.Scdb.Index.Finish.{slots_from}

largest_mono : (count : List ℕ) (m : ℕ) → m ≤ largest count m
unfolding largest
largest_mono [] m = omega arith
largest_mono (n ∷ count) m =
    if-cases (λ (k : ℕ). m ≤ largest count k) (ltb m ((n * 2) % 2 ^ 32))
      (λ e. omega (arith, ltb→lt m _ e, largest_mono count ((n * 2) % 2 ^ 32)))
      (λ e. largest_mono count m)

pub largest-ge :
    (count : List ℕ) (m i : ℕ)
    → i < length count
    → (get_or count i 0 * 2) % 2 ^ 32 ≤ largest count m
unfolding largest
largest-ge [] m i h = elim h [ ]
largest-ge (n ∷ count) m zero h =
    if-cases (λ (k : ℕ). (n * 2) % 2 ^ 32 ≤ largest count k) (ltb m ((n * 2) % 2 ^ 32))
      (λ e. largest_mono count ((n * 2) % 2 ^ 32)) (λ e. ground (arith, largest_mono count m))
largest-ge (n ∷ count) m (suc i) h =
    if-cases (λ (k : ℕ). (get_or count i 0 * 2) % 2 ^ 32 ≤ largest count k)
      (ltb m ((n * 2) % 2 ^ 32)) (λ e. largest-ge count ((n * 2) % 2 ^ 32) i (omega arith))
      (λ e. largest-ge count m i (omega arith))

pub largest-le :
    (count : List ℕ) (m bound : ℕ)
    → ((i : ℕ) → i < length count → get_or count i 0 * 2 ≤ bound)
    → m ≤ bound
    → largest count m ≤ bound
unfolding largest
largest-le [] m bound h low = low
largest-le (n ∷ count) m bound h low =
    if-cases (λ (k : ℕ). largest count k ≤ bound) (ltb m ((n * 2) % 2 ^ 32))
      (λ e.
        largest-le count _ bound (λ i less. h (suc i) (omega arith))
          (omega (arith, h 0 (omega arith))))
      (λ e. largest-le count m bound (λ i less. h (suc i) (omega arith)) low)

pub AllUsed-in_slot : (i : ℕ) (es : List Hp) → AllUsed es → AllUsed (in_slot i es)
unfolding in_slot
AllUsed-in_slot i [] used = tt
AllUsed-in_slot i (hp ∷ es) used =
    if-cases AllUsed (slot hp == i) (λ e. (used.0, AllUsed-in_slot i es used.1))
      (λ e. AllUsed-in_slot i es used.1)

pub room_for-slots_from :
    (i n : ℕ) (es : List Hp)
    → room_for (slots_from i n es) + 16 * before i es ≡ 16 * before (i + n) es
unfolding slots_from before
room_for-slots_from i zero es = let e : i + 0 ≡ i = omega arith in rw e (omega arith)
room_for-slots_from i (suc n) es =
    let e : i + suc n ≡ suc i + n = omega arith in
    rw e (omega (arith, room_for-slots_from (suc i) n es))

pub length-slots_from : (i n : ℕ) (es : List Hp) → length (slots_from i n es) ≡ n
unfolding slots_from
length-slots_from i zero es = refl
length-slots_from i (suc n) es = ap suc (length-slots_from (suc i) n es)

got : Run (List Hp) → List Hp
got (ok hps) = hps
got other = []

starts_of : Run (List ℕ × List Hp) → List ℕ
starts_of (ok r) = r.0
starts_of other = []

fault_ne {ℓ} : {A : Type ℓ} {a : A} → fault ≡ ok a → ⊥
fault_ne e = cc

length-entries_at :
    (split : List Hp) (s n : ℕ) (hps : List Hp) → entries_at split s n ≡ ok hps → length hps ≡ n
unfolding entries_at got
length-entries_at split s n hps =
    if-cases (λ (r : Run (List Hp)). r ≡ ok hps → length hps ≡ n) (leb (s + n) (length split))
      (λ e found. omega (
        arith,
        ap (λ (r : Run (List Hp)). length (got r)) found,
        leb→le (s + n) (length split) e,
        length-take n (drop s split),
        length-drop s split,
      ))
      (λ e found. absurd (fault_ne found))

pub Parts-slots_from :
    (size : ℕ) (split es : List Hp) (count start : List ℕ) (i : ℕ)
    → length start ≡ length count
    → ((j : ℕ)
        → j < length count
        → entries_at split (get_or start j 0) (get_or count j 0) ≡ ok (in_slot (i + j) es))
    → ((j : ℕ) → j < length count → get_or count j 0 + get_or count j 0 ≤ size)
    → AllUsed es
    → Parts size split count start (slots_from i (length count) es)
unfolding slots_from
Parts-slots_from size split es [] start i same found fits used = no_parts start
Parts-slots_from size split es (n ∷ count) [] i same found fits used = absurd (omega arith)
Parts-slots_from size split es (n ∷ count) (s ∷ start) i same found fits used =
    let here : entries_at split s n ≡ ok (in_slot i es) =
      (let e : i + 0 ≡ i = omega arith in rw e at (found 0 (omega arith))) in
    part_of n s count start (in_slot i es) (slots_from (suc i) (length count) es) here
      (length-entries_at split s n (in_slot i es) here) (AllUsed-in_slot i es used)
      (fits 0 (omega arith))
      (Parts-slots_from size split es count start (suc i) (omega arith)
        (λ j h.
          (let e : i + suc j ≡ suc i + j = omega arith in rw e at (found (suc j) (omega arith))))
        (λ j h. fits (suc j) (omega arith)) used)

pub length-split_all :
    (hps : List Hp) (start : List ℕ) (split : List Hp) (r : List ℕ × List Hp)
    → split_all hps start split ≡ ok r
    → length r.0 ≡ length start
unfolding split_all starts_of
length-split_all [] start split r e =
    sym (ap (λ (t : Run (List ℕ × List Hp)). length (starts_of t)) e)
length-split_all (hp ∷ hps) start split r e =
    let where_ = (get_or start (slot hp) 0 + 2 ^ 32 - 1) % 2 ^ 32 in
    if-cases (λ (t : Run (List ℕ × List Hp)). t ≡ ok r → length r.0 ≡ length start)
      (ltb where_ (length split))
      (λ _ e'.
        length-split_all hps (set start (slot hp) where_) (set split where_ hp) r e'
        ∙ length-set start (slot hp) where_)
      (λ _ e'. absurd (fault_ne e')) e
