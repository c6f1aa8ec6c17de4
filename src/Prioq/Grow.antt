-- ===== src/Prioq/Grow.antt =====
-- prioq_readplus: a valid queue, and room for one more entry.
use code_notebook.Base.{
  ℕ, ◌+◌, ◌-◌, ◌*◌, ◌/◌, ◌^◌, ◌≤◌, ◌<◌, ◌≡◌, refl, sym, List, [], ◌++◌, Option, none, some, arith,
  ltb, ◌∙◌, length, get_or, take, drop, length-append, length-take, length-drop, Bool-cases, inl,
  inr, Option-cases, ap,
}
use code_notebook.Base.Bits.{bit_and_mask}
use code_notebook.Base.Cells.{take-append-le, take-take, get_or-take}
use code_notebook.Run.{ok, Ends, ends}
use code_notebook.Prioq.{
  Elt, Prioq, Malloc, u32, elt_bytes, parent, alloc, memcpy, alloc_re, readplus,
}
use code_notebook.Prioq.Order.{key, blank, IsHeap}

-- What is relied on of malloc: a block of n bytes holds n / 16 elements.
abbrev pub IsMalloc : Malloc → Type 0
IsMalloc malloc = (n : ℕ) (b : List Elt) → malloc n ≡ some b → length b ≡ n / elt_bytes

abbrev items_of : Option (List Elt) → ℕ → List Elt
items_of none len = []
items_of (some b) len = take len b

-- The entries, in the order of the block.
abbrev pub items : Prioq → List Elt
items q = items_of q.p q.len

-- A null pointer goes with no entries; a block has at least `size` cells, and the first `len`
-- of them are a heap.
abbrev pub IsBlock : Option (List Elt) → ℕ → ℕ → Type 0
IsBlock none len size = len ≡ 0
IsBlock (some b) len size = IsHeap len b × (len ≤ size) × (size ≤ length b)

abbrev pub IsValid : Prioq → Type 0
IsValid q = IsBlock q.p q.len q.size

-- The sizes at which no computation of bytes wraps.
abbrev pub max_len : ℕ
max_len = 2 ^ 27

pub IsHeap-of_take : (n : ℕ) (b b' : List Elt) → take n b' ≡ take n b → IsHeap n b → IsHeap n b'
IsHeap-of_take n b b' e h c pos lt =
    omega (arith, h c pos lt, key-take c lt, key-take (parent c) (omega arith))
  where
    key-take : (i : ℕ) → i < n → key b' i ≡ key b i
    key-take i below =
        ap (λ (t : Elt). t.dt)
          (sym (get_or-take n b' i blank below)
            ∙ ap (λ (t : List Elt). get_or t i blank) e
            ∙ get_or-take n b i blank below)

-- _alloc asks for at least the bytes it is given.
alloc_room :
    (malloc : Malloc) (n : ℕ) (b : List Elt)
    → IsMalloc malloc
    → n < 2 ^ 28 - 1
    → alloc malloc (n * elt_bytes) ≡ some b
    → n ≤ length b
unfolding alloc
alloc_room malloc n b m h e = omega (arith, m _ b e, bit_and_mask 4 (u32 (n * 16)))

-- The bytes of `size` cells go over, and the rest of the new block stays as it is.
memcpy_cells :
    (y x : List Elt) (size : ℕ)
    → size < 2 ^ 28
    → size ≤ length x
    → size ≤ length y
    → memcpy y x (u32 (size * elt_bytes)) ≡ ok (take size x ++ drop size y)
unfolding memcpy
memcpy_cells y x size small hx hy =
    let n : u32 (size * elt_bytes) / elt_bytes ≡ size = omega arith in rw n (ground arith)

abbrev pub Refuses : Malloc → Type 0
Refuses malloc = (n : ℕ) × (malloc n ≡ none)

alloc_refused : (malloc : Malloc) (n : ℕ) → alloc malloc n ≡ none → Refuses malloc
unfolding alloc
alloc_refused malloc n h = (_, h)

-- The answers of prioq_readplus for one entry: room for it, or malloc's refusal.
pub data Ready (malloc : Malloc) (q : Prioq) : ℕ × Prioq → Type 0 where
  roomy :
      (b : List Elt) (len size : ℕ)
      → len ≡ q.len
      → IsHeap len b
      → len < size
      → size ≤ length b
      → take len b ≡ items q
      → Ready malloc q (0, record { p = some b; len = len; size = size })
  refused : (q' : Prioq) → Refuses malloc → IsValid q' → items q' ≡ items q → Ready malloc q (1, q')

module _ (malloc : Malloc) (m : IsMalloc malloc) where
  new-Ready :
      (len size : ℕ)
      → len ≡ 0
      → Ends
          (Ready malloc (record { p = none; len = len; size = size }))
          (readplus malloc (record { p = none; len = len; size = size }) 1)
  unfolding readplus
  new-Ready len size e = elim (Option-cases (alloc malloc (1 * elt_bytes))) [
    | inl no_block ↦
        rw (no_block, readplus) (ends (refused _ (alloc_refused malloc _ no_block) refl refl))
    | inr (b, got) ↦
        rw (got, readplus)
          (ends (
            roomy b 0 1 (sym e) (λ c p q. absurd (omega arith)) (omega arith)
              (alloc_room malloc 1 b m (omega arith) got) refl))
  ]

  grown-Ready :
      (b : List Elt) (len size : ℕ)
      → len < max_len
      → IsBlock (some b) len size
      → Ends
          (Ready malloc (record { p = some b; len = len; size = size }))
          (readplus malloc (record { p = some b; len = len; size = size }) 1)
  unfolding readplus alloc_re
  grown-Ready b len size small (heap, fits, room) = elim (Bool-cases (ltb (u32 (1 + len)) size)) [
    | inl roomy_yet ↦ rw roomy_yet (ends (roomy b len size refl heap (ground arith) room refl))
    | inr full ↦
        let wanted = u32 (100 + u32 (1 + len) + u32 (1 + len) / 8) in
        let big : (len < wanted) × (size ≤ wanted) × (wanted < 2 ^ 28 - 1) = ground arith in
        rw full (elim (Option-cases (alloc malloc (wanted * elt_bytes))) [
          | inl no_block ↦
              rw (no_block, alloc_re)
                (ends (refused _ (alloc_refused malloc _ no_block) (heap, fits, room) refl))
          | inr (y, got) ↦
              let wide = alloc_room malloc wanted y m big.2 got in
              let sized = length-take size b in
              let same : take len (take size b ++ drop size y) ≡ take len b =
                take-append-le len _ _ (omega arith) ∙ take-take len size b fits in
              rw (got, alloc_re, memcpy_cells y b size (omega arith) room (omega arith))
                (ends (
                  roomy _ len wanted refl (IsHeap-of_take len b _ same heap) big.0
                    (omega (arith, length-append (take size b) (drop size y), length-drop size y))
                    same))
        ])
  ]

  pub readplus-Ready :
      (P : Option (List Elt)) (len size : ℕ)
      → len < max_len
      → IsBlock P len size
      → Ends
          (Ready malloc (record { p = P; len = len; size = size }))
          (readplus malloc (record { p = P; len = len; size = size }) 1)
  readplus-Ready none len size small h = new-Ready len size h
  readplus-Ready (some b) len size small h = grown-Ready b len size small h
