-- ===== src/Schar/Grow.antt =====
-- schar_ready: a valid string, and room for more of it.
use code_notebook.Base.{
  ℕ, ◌+◌, ◌-◌, ◌/◌, ◌^◌, ◌≤◌, ◌<◌, ◌≡◌, refl, sym, ◌∙◌, List, [], ◌++◌, Option, none, some, arith,
  ltb, length, get_or, take, drop, length-append, length-take, length-drop, Bool-cases, inl, inr,
  Option-cases,
}
use code_notebook.Base.Bits.{bit_and_mask}
use code_notebook.Base.Cells.{take-append-le, take-take}
use code_notebook.Block.{memcpy-ok}
use code_notebook.Run.{Ends, ends}
use code_notebook.Schar.{Schar, Malloc, u32, alloc, realloc, ready}

-- What is relied on of malloc: a block has the size that was asked for.
abbrev pub IsMalloc : Malloc → Type 0
IsMalloc malloc = (n : ℕ) (b : List ℕ) → malloc n ≡ some b → length b ≡ n

abbrev content_of : Option (List ℕ) → ℕ → List ℕ
content_of none len = []
content_of (some b) len = take len b

-- The string that is held.
abbrev pub content : Schar → List ℕ
content x = content_of x.s x.len

-- A null pointer goes with an empty string; a block has room for the string and its zero.
abbrev pub IsBlock : Option (List ℕ) → ℕ → ℕ → Type 0
IsBlock none len size = len ≡ 0
IsBlock (some b) len size = (len < size) × (size ≤ length b) × (get_or b len 0 ≡ 0)

abbrev pub IsValid : Schar → Type 0
IsValid x = IsBlock x.s x.len x.size

-- The lengths at which no sum wraps.
abbrev pub max_len : ℕ
max_len = 2 ^ 31

abbrev pub Refuses : Malloc → Type 0
Refuses malloc = (n : ℕ) × (malloc n ≡ none)

alloc_refused : (malloc : Malloc) (n : ℕ) → alloc malloc n ≡ none → Refuses malloc
unfolding alloc
alloc_refused malloc n h = (_, h)

-- _alloc asks for more than the bytes it is given.
alloc_room :
    (malloc : Malloc) (n : ℕ) (b : List ℕ)
    → IsMalloc malloc
    → n < 2 ^ 32 - 16
    → alloc malloc n ≡ some b
    → n ≤ length b
unfolding alloc
alloc_room malloc n b m h e = omega (arith, m _ b e, bit_and_mask 4 n)

-- The answers of schar_ready: room for `n` bytes behind the string, or malloc's refusal.
pub data Ready (malloc : Malloc) (x : Schar) (n : ℕ) : ℕ × Schar → Type 0 where
  roomy :
      (b : List ℕ) (len size : ℕ)
      → len ≡ x.len
      → len + n ≤ size
      → size ≤ length b
      → take len b ≡ content x
      → Ready malloc x n (0, record { s = some b; len = len; size = size })
  refused :
      (x' : Schar) → Refuses malloc → IsValid x' → content x' ≡ content x → Ready malloc x n (1, x')

module _ (malloc : Malloc) (m : IsMalloc malloc) where
  new-Ready :
      (len size n : ℕ)
      → len ≡ 0
      → n < max_len
      → Ends
          (Ready malloc (record { s = none; len = len; size = size }) n)
          (ready malloc (record { s = none; len = len; size = size }) n)
  unfolding ready
  new-Ready len size n e small = elim (Option-cases (alloc malloc n)) [
    | inl no_block ↦
        rw (no_block, ready) (ends (refused _ (alloc_refused malloc n no_block) refl refl))
    | inr (b, got) ↦
        rw (got, ready)
          (ends
            (roomy b 0 n (sym e) (omega arith) (alloc_room malloc n b m (omega arith) got) refl))
  ]

  grown-Ready :
      (b : List ℕ) (len size n : ℕ)
      → len + n < max_len
      → IsBlock (some b) len size
      → Ends
          (Ready malloc (record { s = some b; len = len; size = size }) n)
          (ready malloc (record { s = some b; len = len; size = size }) n)
  unfolding ready realloc
  grown-Ready b len size n small (fits, room, ended) =
      elim (Bool-cases (ltb size (u32 (n + len)))) [
        | inr enough ↦ rw enough (ends (roomy b len size refl (ground arith) room refl))
        | inl full ↦
            let i = u32 (30 + u32 (n + len) + u32 (n + len) / 8) in
            let big : (len + n ≤ i) × (size ≤ i) × (i < 2 ^ 32 - 16) = ground arith in
            rw full (elim (Option-cases (alloc malloc i)) [
              | inl no_block ↦
                  rw (no_block, realloc)
                    (ends (refused _ (alloc_refused malloc i no_block) (fits, room, ended) refl))
              | inr (y, got) ↦
                  let wide = alloc_room malloc i y m big.2 got in
                  let same : take len (take size b ++ drop (0 + size) y) ≡ take len b =
                    take-append-le len _ _ (omega (arith, length-take size b))
                    ∙ take-take len size b (omega arith) in
                  rw (got, realloc, memcpy-ok y 0 b size room (omega arith))
                    (ends (
                      roomy _ len i refl big.0
                        (omega (
                          arith,
                          length-append (take size b) (drop (0 + size) y),
                          length-take size b,
                          length-drop (0 + size) y,
                        ))
                        same))
            ])
      ]

  pub ready-Ready :
      (P : Option (List ℕ)) (len size n : ℕ)
      → len + n < max_len
      → IsBlock P len size
      → Ends
          (Ready malloc (record { s = P; len = len; size = size }) n)
          (ready malloc (record { s = P; len = len; size = size }) n)
  ready-Ready none len size n small h = new-Ready len size n h (omega arith)
  ready-Ready (some b) len size n small h = grown-Ready b len size n small h
