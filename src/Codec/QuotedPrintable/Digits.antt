-- ===== src/Codec/QuotedPrintable/Digits.antt =====
-- One byte in quoted-printable text, written and read back.
use Prim.Native.Nat.{bit_and, bit_or}
use code_notebook.Base.{
  ℕ, zero, suc, ◌*◌, ◌/◌, ◌%◌, ◌^◌, ◌≤◌, ◌<◌, ◌≡◌, ◌≢◌, refl, ap, Bool, true, false, ◌&&◌, not,
  List, [], ◌∷◌, ◌++◌, Option, arith, ltb, leb, ◌==◌, ==_iff, length, get_or,
}
use code_notebook.Base.Bits.{holds_below, holds_below_at}
use code_notebook.Run.{ok}
use code_notebook.Codec.QuotedPrintable.{
  equals, hex, hexval, hexval_table, code, soft_break, store, skip_blanks, after_break, byte,
  second_digit, soft_end, read_code, after_code, decode_loop,
}

-- Two digits, with what the decoder tests and makes of them.
two_digits : ℕ → ℕ → ℕ → Bool
two_digits h l c =
    not (h == 0)
    && (ltb (hexval h) 16 && (ltb (hexval l) 16 && bit_or (hexval h * 2 ^ 4) (hexval l) % 256 == c))

digits_checked :
    holds_below 256 (λ c. two_digits (get_or hex (c / 2 ^ 4) 0) (get_or hex (bit_and c 0xf) 0) c)
    ≡ true
unfolding two_digits holds_below hex hexval_table
digits_checked = refl

&&-parts : (a b : Bool) → (a && b) ≡ true → (a ≡ true) × (b ≡ true)
&&-parts true b h = (refl, h)
&&-parts false b h = absurd cc

read_code-two_digits :
    (h l c : ℕ) (rest : List ℕ) → two_digits h l c ≡ true → read_code (h ∷ l ∷ rest) ≡ byte c rest
unfolding read_code second_digit two_digits
read_code-two_digits h l c rest e =
    let digits = ltb (hexval h) 16 in
    let low = ltb (hexval l) 16 in
    let same = bit_or (hexval h * 2 ^ 4) (hexval l) % 256 == c in
    let (some_byte, e1) = &&-parts (not (h == 0)) (digits && (low && same)) e in
    let (first, e2) = &&-parts digits (low && same) e1 in
    let (second, value) = &&-parts low same e2 in
    let more : (h == 0) ≡ false = ground arith in
    let digit : leb 16 (hexval l) ≡ false = ground arith in
    rw (more, first, digit)
      (ap (λ (b : ℕ). byte b rest)
        ((==_iff (bit_or (hexval h * 2 ^ 4) (hexval l) % 256) c).0 value))

read_code-code :
    (c : ℕ) (rest : List ℕ)
    → c < 256
    → read_code (get_or hex (c / 2 ^ 4) 0 ∷ get_or hex (bit_and c 0xf) 0 ∷ rest) ≡ byte c rest
read_code-code c rest h =
    read_code-two_digits (get_or hex (c / 2 ^ 4) 0) (get_or hex (bit_and c 0xf) 0) c rest (
      holds_below_at (λ c. two_digits (get_or hex (c / 2 ^ 4) 0) (get_or hex (bit_and c 0xf) 0) c)
        256 c h digits_checked)

pub low_digit : (c : ℕ) → c < 256 → hexval (get_or hex (bit_and c 0xf) 0) < 16
unfolding two_digits
low_digit c h =
    let h' = get_or hex (c / 2 ^ 4) 0 in
    let l = get_or hex (bit_and c 0xf) 0 in
    let rest = ltb (hexval l) 16 && bit_or (hexval h' * 2 ^ 4) (hexval l) % 256 == c in
    let (_, e) = &&-parts (not (h' == 0)) (ltb (hexval h') 16 && rest) (
      holds_below_at (λ c. two_digits (get_or hex (c / 2 ^ 4) 0) (get_or hex (bit_and c 0xf) 0) c)
        256 c h digits_checked) in
    let (_, e') = &&-parts (ltb (hexval h') 16) rest e in
    let (low, _) =
      &&-parts (ltb (hexval l) 16) (bit_or (hexval h' * 2 ^ 4) (hexval l) % 256 == c) e' in
    ground arith

-- The decoder has reached `rest` with `out`, and ends with the answer `r` from there.
abbrev pub Leads : ℕ → List ℕ → List ℕ → Option (List ℕ) → Type 0
Leads buf_size str out r = (fuel : ℕ) → length str < fuel → decode_loop fuel buf_size str out ≡ ok r

module _ (buf_size : ℕ) (r : Option (List ℕ)) where
  pub store-ok :
      (out : List ℕ) (b : ℕ) → length out ≤ buf_size → store buf_size out b ≡ ok (out ++ b ∷ [])
  unfolding store
  store-ok out b h = let inside : leb (length out) buf_size ≡ true = ground arith in rw inside refl

  pub plain-Leads :
      (b : ℕ) (rest out : List ℕ)
      → b ≢ 0
      → b ≢ equals
      → length out ≤ buf_size
      → Leads buf_size rest (out ++ b ∷ []) r
      → Leads buf_size (b ∷ rest) out r
  unfolding decode_loop
  plain-Leads b rest out more plain h next zero less = absurd (omega arith)
  plain-Leads b rest out more plain h next (suc fuel) less =
      let no_end : (b == 0) ≡ false = ground (arith, more) in
      let no_code : (b == equals) ≡ false = ground (arith, plain) in
      rw (no_end, no_code, store-ok out b h) (next fuel (omega arith))

  pub code-Leads :
      (c : ℕ) (rest out : List ℕ)
      → c < 256
      → length out ≤ buf_size
      → Leads buf_size rest (out ++ c ∷ []) r
      → Leads buf_size (code c ++ rest) out r
  unfolding decode_loop after_code code
  code-Leads c rest out small h next zero less = absurd (omega arith)
  code-Leads c rest out small h next (suc fuel) less =
      rw (read_code-code c rest small, after_code, store-ok out c h) (next fuel (omega arith))

  pub soft_break-Leads :
      (rest out : List ℕ) → Leads buf_size rest out r → Leads buf_size (soft_break ++ rest) out r
  unfolding decode_loop after_code read_code soft_end skip_blanks after_break hexval_table
  soft_break-Leads rest out next zero less = absurd (omega arith)
  soft_break-Leads rest out next (suc fuel) less = next fuel (omega arith)
