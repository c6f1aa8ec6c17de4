-- ===== src/Scdb/Index/Split.antt =====
-- The entries sorted by the slot of their hash: c->split behind its two loops.
use code_notebook.Base.{
  ℕ, suc, ◌+◌, ◌-◌, ◌%◌, ◌^◌, ◌≤◌, ◌<◌, ◌≡◌, ◌⊎◌, inl, inr, refl, sym, ap, ◌∙◌, true, false, List,
  [], ◌∷◌, arith, ltb, leb, ◌==◌, if◌then◌else◌, length, get_or, set, take, drop, length-set,
  length-take, Bool-cases,
}
use code_notebook.Base.Bits.{bit_and-le}
use code_notebook.Base.Cells.{get_or-set, drop-set, drop-set_self, take-set, set-beyond}
use code_notebook.Run.{Ends, ends}
use code_notebook.Scdb.Make.{Hp}
use code_notebook.Scdb.Index.{slot, split_all}

-- The entries of slot `i`, in order.
unfoldable pub in_slot : ℕ → List Hp → List Hp
in_slot i [] = []
in_slot i (hp ∷ hps) = let more = in_slot i hps in if slot hp == i then hp ∷ more else more

pub slot-lt : (hp : Hp) → slot hp < 256
slot-lt hp = omega (arith, bit_and-le 255 hp.h)

length-in_slot_own : (hp : Hp) (hps : List Hp) → 0 < length (in_slot (slot hp) (hp ∷ hps))
unfolding in_slot
length-in_slot_own hp hps = ground arith

-- Those of slot `i` put before `out` one after another.
unfoldable pub gather : ℕ → List Hp → List Hp → List Hp
gather i [] out = out
gather i (hp ∷ hps) out = gather i hps (if slot hp == i then hp ∷ out else out)

-- The cells from `s` to `e`.
abbrev pub part : List Hp → ℕ → ℕ → List Hp
part split s e = take (e - s) (drop s split)

part-set_other :
    (split : List Hp) (s e p : ℕ) (x : Hp)
    → (p < s) ⊎ (e ≤ p)
    → part (set split p x) s e ≡ part split s e
part-set_other split s e p x (inl before) =
    let early : leb s p ≡ false = ground arith in rw (drop-set s split p x, early) refl
part-set_other split s e p x (inr behind) = elim (Bool-cases (leb s p)) [
  | inl late ↦
      rw (drop-set s split p x, late, take-set (e - s) (drop s split) (p - s) x)
        (set-beyond (take (e - s) (drop s split)) (p - s) x
          (ground (arith, length-take (e - s) (drop s split))))
  | inr early ↦ rw (drop-set s split p x, early) refl
]

part-set_self :
    (split : List Hp) (s e : ℕ) (x : Hp)
    → s < e
    → e ≤ length split
    → part (set split s x) s e ≡ x ∷ part split (suc s) e
part-set_self split s e x less inside =
    let one : e - s ≡ suc (e - suc s) = omega arith in
    rw (drop-set_self s split x (omega arith), one) refl

-- The slots from `begin i` to `end i` lie apart, within `size` cells.
module _ (begin end : ℕ → ℕ) (size : ℕ) where
  pub record Apart : Type 0 where
    pub ordered : (i j : ℕ) → i < j → end i ≤ begin j
    pub inside : (i : ℕ) → i < 256 → end i ≤ size
    pub small : size < 2 ^ 32

  -- Room for the entries that are left stands in each slot before those that are done.
  pub record Splitting (hps : List Hp) (start : List ℕ) (split : List Hp) (done : ℕ → List Hp)
      : Type 0 where
    pub starts : length start ≡ 256
    pub cells : length split ≡ size
    pub left : (i : ℕ) → i < 256 → get_or start i 0 ≡ begin i + length (in_slot i hps)
    pub fits : (i : ℕ) → i < 256 → get_or start i 0 ≤ end i
    pub filled : (i : ℕ) → i < 256 → part split (get_or start i 0) (end i) ≡ done i

  module _ (apart : Apart) where
    module _ (hp : Hp) (hps : List Hp) (start : List ℕ) (split : List Hp) (done : ℕ → List Hp)
        (s : ℕ) (low : slot hp < 256) (here : get_or start (slot hp) 0 ≡ suc s)
        (inv : Splitting (hp ∷ hps) start split done) where
      lowered :
          (i : ℕ)
          → get_or (set start (slot hp) s) i 0 ≡ (if slot hp == i then s else get_or start i 0)
      lowered i = get_or-set start (slot hp) i s 0 (omega (arith, low, inv.starts))

      same_slot : (i : ℕ) → (slot hp == i) ≡ true → get_or start i 0 ≡ suc s
      same_slot i same =
          let e : slot hp ≡ i = ground arith in ap (λ (k : ℕ). get_or start k 0) (sym e) ∙ here

      left_after :
          (i : ℕ) → i < 256 → get_or (set start (slot hp) s) i 0 ≡ begin i + length (in_slot i hps)
      unfolding in_slot
      left_after i h = elim (Bool-cases (slot hp == i)) [
        | inl same ↦
            let old = inv.left i h in
            rw (lowered i, same) (omega (arith, same_slot i same, rw same at old))
        | inr other ↦ let old = inv.left i h in rw (lowered i, other) (rw other at old)
      ]

      fits_after : (i : ℕ) → i < 256 → get_or (set start (slot hp) s) i 0 ≤ end i
      fits_after i h = elim (Bool-cases (slot hp == i)) [
        | inl same ↦ rw (lowered i, same) (omega (arith, same_slot i same, inv.fits i h))
        | inr other ↦ rw (lowered i, other) (inv.fits i h)
      ]

      begin_here : begin (slot hp) ≤ s
      unfolding in_slot
      begin_here = ground (arith, inv.left (slot hp) low, here)

      elsewhere : (i : ℕ) → i < 256 → (slot hp == i) ≡ false → (s < get_or start i 0) ⊎ (end i ≤ s)
      elsewhere i h other = elim (Bool-cases (ltb i (slot hp))) [
        | inl before ↦ inr (ground (arith, apart.ordered i (slot hp), begin_here))
        | inr behind ↦
            let ends_before = apart.ordered (slot hp) i (ground arith) in
            inl (omega (arith, ends_before, inv.left i h, inv.fits (slot hp) low, here))
      ]

      filled_after :
          (i : ℕ)
          → i < 256
          → part (set split s hp) (get_or (set start (slot hp) s) i 0) (end i)
            ≡ (if slot hp == i then hp ∷ done i else done i)
      filled_after i h = elim (Bool-cases (slot hp == i)) [
        | inl same ↦
            let old = same_slot i same in
            let was = inv.filled i h in
            rw (lowered i, same)
              (part-set_self split s (end i) hp (omega (arith, old, inv.fits i h))
                  (omega (arith, apart.inside i h, inv.cells))
                ∙ ap (◌∷◌ hp) (rw old at was))
        | inr other ↦
            rw (lowered i, other)
              (part-set_other split (get_or start i 0) (end i) s hp (elsewhere i h other)
                ∙ inv.filled i h)
      ]

      -- One entry goes to the end of the room that its slot has.
      step-Splitting :
          Splitting hps
            (set start (slot hp) s)
            (set split s hp)
            (λ i. if slot hp == i then hp ∷ done i else done i)
      step-Splitting = record {
        starts = length-set start (slot hp) s ∙ inv.starts;
        cells = length-set split s hp ∙ inv.cells;
        left = left_after;
        fits = fits_after;
        filled = filled_after;
      }

    -- Both loops over the entries.
    pub split_all-Splitting :
        (hps : List Hp) (start : List ℕ) (split : List Hp) (done : ℕ → List Hp)
        → Splitting hps start split done
        → Ends (λ r. Splitting [] r.0 r.1 (λ i. gather i hps (done i))) (split_all hps start split)
    unfolding split_all gather
    split_all-Splitting [] start split done inv = ends inv
    split_all-Splitting (hp ∷ hps) start split done inv =
        let low = slot-lt hp in
        let s = get_or start (slot hp) 0 - 1 in
        let here : get_or start (slot hp) 0 ≡ suc s =
          omega (arith, inv.left (slot hp) (slot-lt hp), length-in_slot_own hp hps) in
        let where_ : (get_or start (slot hp) 0 + 2 ^ 32 - 1) % 2 ^ 32 ≡ s =
          omega (arith, here, inv.fits (slot hp) low, apart.inside (slot hp) low, apart.small) in
        let inside : ltb s (length split) ≡ true =
          ground (arith, here, inv.fits (slot hp) low, apart.inside (slot hp) low, inv.cells) in
        rw (where_, inside)
          (split_all-Splitting hps (set start (slot hp) s) (set split s hp) _
            (step-Splitting hp hps start split done s low here inv))
