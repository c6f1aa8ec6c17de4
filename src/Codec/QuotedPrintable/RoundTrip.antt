-- ===== src/Codec/QuotedPrintable/RoundTrip.antt =====
-- Decoding what the encoder wrote.
use Prim.Native.Nat.{bit_and}
use code_notebook.Base.{
  ℕ, zero, suc, ◌+◌, ◌/◌, ◌%◌, ◌^◌, ◌≤◌, ◌<◌, ◌≡◌, ◌≢◌, refl, ap, ◌∙◌, true, ◌&&◌, List, [], ◌∷◌,
  ◌++◌, Option, some, arith, ltb, leb, ◌==◌, length, get_or, length-append, Bool-cases, inl, inr,
}
use mathlib.Core.Path.{subst}
use mathlib.Core.List.{append_assoc, append-nil}
use code_notebook.Base.Bytes.{AreBytes}
use code_notebook.Run.{ok}
use code_notebook.Codec.QuotedPrintable.{
  max_line, cr, lf, equals, hex, needs_code, breaks_before, code, soft_break, write_byte,
  encode_loop, encode, estimate, decode_loop, end_text, decode,
}
use code_notebook.Codec.QuotedPrintable.Bounds.{encode-ok, length-text}
use code_notebook.Base.Slices.{take-all}
use code_notebook.Codec.QuotedPrintable.Room.{
  room, room-plain, room-listed, room_coded, estimate-room,
}
use code_notebook.Codec.QuotedPrintable.Digits.{
  Leads, plain-Leads, code-Leads, soft_break-Leads, low_digit,
}

module _ (buf_size : ℕ) (r : Option (List ℕ)) (out : List ℕ) (h : length out ≤ buf_size) where
  write_byte-Leads :
      (lp c next : ℕ) (rest : List ℕ)
      → c < 256
      → Leads buf_size rest (out ++ c ∷ []) r
      → Leads buf_size ((write_byte lp c next).1 ++ rest) out r
  unfolding write_byte needs_code
  write_byte-Leads lp c next rest small later = elim (Bool-cases (needs_code c next)) [
    | inl coded ↦ elim (Bool-cases (breaks_before c (lp + 3))) [
      | inl full ↦
          rw (coded, full)
            (soft_break-Leads buf_size r (code c ++ rest) out
              (code-Leads buf_size r c rest out small h later))
      | inr short ↦ rw (coded, short) (code-Leads buf_size r c rest out small h later)
    ]
    | inr plain ↦
        let no_end : c ≢ 0 = λ e. absurd (ground arith) in
        let no_code : c ≢ equals = λ e. absurd (ground arith) in
        elim (Bool-cases (ltb max_line (lp + 1))) [
          | inl full ↦
              rw (plain, full)
                (soft_break-Leads buf_size r (c ∷ rest) out
                  (plain-Leads buf_size r c rest out no_end no_code h later))
          | inr short ↦ rw (plain, short) (plain-Leads buf_size r c rest out no_end no_code h later)
        ]
  ]

end-Leads : (buf_size : ℕ) (out : List ℕ) → Leads buf_size [] out (some out)
unfolding decode_loop
end-Leads buf_size out zero less = absurd (omega arith)
end-Leads buf_size out (suc fuel) less = refl

pair-Leads :
    (buf_size : ℕ) (str out : List ℕ)
    → length out + 2 ≤ buf_size
    → Leads buf_size (encode_loop 0 str) (out ++ cr ∷ lf ∷ []) (some ((out ++ cr ∷ lf ∷ []) ++ str))
    → Leads buf_size (cr ∷ lf ∷ encode_loop 0 str) out (some (out ++ cr ∷ lf ∷ str))
pair-Leads buf_size str out fits next =
    let r : Option (List ℕ) = some (out ++ cr ∷ lf ∷ str) in
    let first = append_assoc out (cr ∷ []) (lf ∷ []) in
    let whole = append_assoc out (cr ∷ lf ∷ []) str in
    plain-Leads buf_size r cr (lf ∷ encode_loop 0 str) out (λ e. absurd (omega (arith, e)))
      (λ e. absurd (omega (arith, e))) (omega arith)
      (plain-Leads buf_size r lf (encode_loop 0 str) (out ++ cr ∷ [])
        (λ e. absurd (omega (arith, e))) (λ e. absurd (omega (arith, e)))
        (omega (arith, length-append out (cr ∷ []))) (rw first (rw whole at next)))

encode_loop-Leads :
    (buf_size : ℕ) (str out : List ℕ) (lp : ℕ)
    → AreBytes str
    → length out + length str ≤ buf_size
    → Leads buf_size (encode_loop lp str) out (some (out ++ str))
unfolding encode_loop
encode_loop-Leads buf_size [] out lp bytes fits = rw (append-nil out) (end-Leads buf_size out)
encode_loop-Leads buf_size (c ∷ []) out lp (small, bytes) fits =
    let whole = append-nil (write_byte lp c 0).1 in
    subst (λ (t : List ℕ). Leads buf_size t out (some (out ++ c ∷ []))) whole
      (write_byte-Leads buf_size (some (out ++ c ∷ [])) out (omega arith) lp c 0 [] small
        (end-Leads buf_size (out ++ c ∷ [])))
encode_loop-Leads buf_size (c ∷ d ∷ str) out lp (small, bytes) fits =
    let one : length (out ++ c ∷ []) ≡ suc (length out) =
      omega (arith, length-append out (c ∷ [])) in
    let next =
      encode_loop-Leads buf_size (d ∷ str) (out ++ c ∷ []) (write_byte lp c d).0 bytes
        (omega arith) in
    let after =
      encode_loop-Leads buf_size str (out ++ cr ∷ lf ∷ []) 0 bytes.1
        (omega (arith, length-append out (cr ∷ lf ∷ []))) in
    elim (Bool-cases (c == cr && d == lf)) [
      | inl pair ↦
          let is_cr : c ≡ cr = ground arith in
          let is_lf : d ≡ lf = ground arith in
          rw pair (rw (is_cr, is_lf) (pair-Leads buf_size str out (omega arith) after))
      | inr single ↦ rw single (
          write_byte-Leads buf_size (some (out ++ c ∷ d ∷ str)) out (omega arith) lp c d
            (encode_loop (write_byte lp c d).0 (d ∷ str)) small
            (rw (append_assoc out (c ∷ []) (d ∷ str)) at next))
    ]

-- The room that the decoder counts is enough for all bytes.
code-room : (c : ℕ) (rest : List ℕ) → c < 256 → room (code c ++ rest) ≡ suc (room rest)
unfolding code
code-room c rest small =
    let l = get_or hex (bit_and c 0xf) 0 in
    room_coded equals (get_or hex (c / 2 ^ 4) 0) (l ∷ rest) refl
    ∙ room-listed l rest (λ e. absurd (omega (arith, e, low_digit c small)))

soft_break-room : (rest : List ℕ) → room (soft_break ++ rest) ≡ suc (room rest)
soft_break-room rest =
    room_coded equals cr (lf ∷ rest) refl
    ∙ room-plain lf rest (λ e. absurd (omega (arith, e))) (λ e. absurd (omega (arith, e)))

write_byte-room :
    (lp c next : ℕ) (rest : List ℕ)
    → c < 256
    → suc (room rest) ≤ room ((write_byte lp c next).1 ++ rest)
unfolding write_byte needs_code
write_byte-room lp c next rest small = elim (Bool-cases (needs_code c next)) [
  | inl coded ↦ elim (Bool-cases (breaks_before c (lp + 3))) [
    | inl full ↦
        rw (coded, full) (omega (arith, soft_break-room (code c ++ rest), code-room c rest small))
    | inr short ↦ rw (coded, short) (omega (arith, code-room c rest small))
  ]
  | inr plain ↦
      let one = room-plain c rest (λ e. absurd (ground arith)) (λ e. absurd (ground arith)) in
      elim (Bool-cases (ltb max_line (lp + 1))) [
        | inl full ↦ rw (plain, full) (omega (arith, soft_break-room (c ∷ rest), one))
        | inr short ↦ rw (plain, short) (omega (arith, one))
      ]
]

encode_loop-room : (str : List ℕ) (lp : ℕ) → AreBytes str → length str ≤ room (encode_loop lp str)
unfolding encode_loop
encode_loop-room [] lp bytes = omega arith
encode_loop-room (c ∷ []) lp (small, bytes) =
    omega (arith, write_byte-room lp c 0 [] small, ap room (append-nil (write_byte lp c 0).1))
encode_loop-room (c ∷ d ∷ str) lp (small, bytes) =
    let next = encode_loop-room (d ∷ str) (write_byte lp c d).0 bytes in
    let after = encode_loop-room str 0 bytes.1 in
    let one = write_byte-room lp c d (encode_loop (write_byte lp c d).0 (d ∷ str)) small in
    let first =
      room-plain cr (lf ∷ encode_loop 0 str) (λ e. absurd (omega (arith, e)))
        (λ e. absurd (omega (arith, e))) in
    let second =
      room-plain lf (encode_loop 0 str) (λ e. absurd (omega (arith, e)))
        (λ e. absurd (omega (arith, e))) in
    elim (Bool-cases (c == cr && d == lf)) [
      | inl pair ↦ rw pair (omega arith)
      | inr single ↦ rw single (omega arith)
    ]

-- For every string of at most 2 ^ 30 bytes s_quoted_printable_encode_alloc, when malloc and realloc have memory,
-- returns and writes inside the block that it asks for, and s_quoted_printable_decode_alloc of
-- what it returns gives the bytes back, written inside its block.
pub decode-encode_printable :
    (str : List ℕ)
    → AreBytes str
    → length str ≤ 2 ^ 30
    → (text : List ℕ) × (encode true true str ≡ ok (some text)) × (decode true text ≡ ok (some str))
unfolding decode end_text
decode-encode_printable str bytes few =
    let text = encode_loop 0 str in
    let whole : length text % 2 ^ 32 ≡ length text = omega (arith, length-text str) in
    let size = estimate text (length text) in
    let enough : length str ≤ size =
      omega (arith, estimate-room text (length text), encode_loop-room str 0 bytes) in
    let inside : leb (length str) size ≡ true = ground arith in
    let read =
      encode_loop-Leads size str [] 0 bytes (omega arith) (length text + 1) (omega arith) in
    let all = take-all (length text) text (omega arith) in
    (text, encode-ok str, rw (whole, all, read, whole, all, end_text, inside) refl)
