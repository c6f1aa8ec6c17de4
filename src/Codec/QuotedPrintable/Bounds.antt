-- ===== src/Codec/QuotedPrintable/Bounds.antt =====
-- The block of s_quoted_printable_encode_alloc is large enough.
use code_notebook.Base.{
  ℕ, suc, ◌+◌, ◌*◌, ◌/◌, ◌≤◌, ◌≡◌, refl, true, false, ◌&&◌, List, [], ◌∷◌, some, arith, ltb, ◌==◌,
  length, length-append, Bool-cases, inl, inr,
}
use code_notebook.Run.{ok}
use code_notebook.Codec.QuotedPrintable.{
  max_line, cr, lf, needs_code, breaks_before, write_byte, encode_loop, block_size, encode,
}

-- `k` bytes of the input stand in the line so far, which has `lp` columns. What is written for a
-- byte stays in the line, or a break goes before it, and then `k` is 22 at least.
data Column (k : ℕ) : ℕ × List ℕ → Type 0 where
  stays : (lp : ℕ) (out : List ℕ) → lp ≤ 3 * (k + 1) → length out ≤ 3 → Column k (lp, out)
  starts : (lp : ℕ) (out : List ℕ) → 22 ≤ k → lp ≤ 3 → length out ≤ 6 → Column k (lp, out)

write_byte-Column : (k lp c next : ℕ) → lp ≤ 3 * k → Column k (write_byte lp c next)
unfolding write_byte
write_byte-Column k lp c next h = elim (Bool-cases (needs_code c next)) [
  | inl coded ↦ elim (Bool-cases (breaks_before c (lp + 3))) [
    | inl full ↦ rw (coded, full) (starts 3 _ (ground arith) (omega arith) (ground arith))
    | inr short ↦ rw (coded, short) (stays (lp + 3) _ (omega arith) (ground arith))
  ]
  | inr plain ↦ elim (Bool-cases (ltb max_line (lp + 1))) [
    | inl full ↦ rw (plain, full) (starts 1 _ (ground arith) (omega arith) (ground arith))
    | inr short ↦ rw (plain, short) (stays (lp + 1) _ (omega arith) (ground arith))
  ]
]

-- A break for every 22 bytes at most.
abbrev fits : ℕ → ℕ → ℕ
fits k n = 3 * n + 3 * ((k + n) / 22)

Column-bound :
    (k : ℕ) (r : ℕ × List ℕ)
    → Column k r
    → (n m : ℕ) → ((k' : ℕ) → r.0 ≤ 3 * k' → m ≤ fits k' n)
    → length r.1 + m ≤ fits k (suc n)
Column-bound k r (stays lp out low three) n m h = omega (arith, h (k + 1) low)
Column-bound k r (starts lp out full low six) n m h = omega (arith, h 1 low)

length-encode_loop :
    (str : List ℕ) (k lp : ℕ) → lp ≤ 3 * k → length (encode_loop lp str) ≤ fits k (length str)
unfolding encode_loop
length-encode_loop [] k lp h = omega arith
length-encode_loop (c ∷ []) k lp h =
    omega (arith, Column-bound k _ (write_byte-Column k lp c 0 h) 0 0 (λ k' low. omega arith))
length-encode_loop (c ∷ d ∷ str) k lp h =
    let ih = length-encode_loop (d ∷ str) in
    let broken = length-encode_loop str 0 0 (omega arith) in
    let one =
      Column-bound k (write_byte lp c d) (write_byte-Column k lp c d h) (length (d ∷ str))
        (length (encode_loop (write_byte lp c d).0 (d ∷ str)))
        (λ k' low. ih k' (write_byte lp c d).0 low) in
    elim (Bool-cases (c == cr && d == lf)) [
      | inl pair ↦ rw pair (omega (arith, broken))
      | inr single ↦ rw single (
          omega (
            arith,
            one,
            length-append (write_byte lp c d).1 (encode_loop (write_byte lp c d).0 (d ∷ str)),
          ))
    ]

-- The text is at most about three times as long, and a soft break for each 22 bytes.
pub length-text :
    (str : List ℕ) → length (encode_loop 0 str) ≤ 3 * length str + 3 * (length str / 22)
length-text str = omega (arith, length-encode_loop str 0 0 (omega arith))

pub encode-ok : (str : List ℕ) → encode true true str ≡ ok (some (encode_loop 0 str))
unfolding encode
encode-ok str =
    let small : ltb (block_size (length str)) (length (encode_loop 0 str) + 1) ≡ false =
      ground (arith, length-encode_loop str 0 0) in
    rw small refl
