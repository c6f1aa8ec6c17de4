-- ===== src/Codec/QuotedPrintable/Tests.antt =====
-- Quoted-printable text on concrete bytes.
use code_notebook.Base.{
  ℕ, ◌≡◌, refl, true, List, [], ◌∷◌, none, some, arith, length, take, ◌%◌, ◌^◌,
}
use code_notebook.Run.{ok, Ends}
use code_notebook.Codec.QuotedPrintable.{
  encode, encode_loop, write_byte, decode, hexval_table, read_code, estimate,
}
use code_notebook.Codec.QuotedPrintable.Room.{Fits, decode-Fits}
use code_notebook.Codec.QuotedPrintable.RoundTrip.{decode-encode_printable}

-- "a=\r\n" and a byte above 127
abbrev mixed : List ℕ
mixed = b'a' ∷ b'=' ∷ 13 ∷ 10 ∷ 0xe9 ∷ []

-- "a=3D\r\n=E9"
encoded :
    encode true true mixed
    ≡ ok (some (b'a' ∷ b'=' ∷ b'3' ∷ b'D' ∷ 13 ∷ 10 ∷ b'=' ∷ b'E' ∷ b'9' ∷ []))
unfolding encode encode_loop write_byte
encoded = refl

-- "b= \r\nc=4": a soft break, and a code that is cut off
abbrev cut_off : List ℕ
cut_off = b'b' ∷ b'=' ∷ b' ' ∷ 13 ∷ 10 ∷ b'c' ∷ b'=' ∷ b'4' ∷ []

refused : decode true cut_off ≡ ok none
unfolding decode read_code hexval_table estimate
refused = refl

decode-Fits_example :
    Ends
      (Fits (estimate (take (length cut_off % 2 ^ 32) cut_off) (length cut_off)))
      (decode true cut_off)
decode-Fits_example = decode-Fits true cut_off

decode-encode_printable_example :
    (text : List ℕ) × (encode true true mixed ≡ ok (some text))
    × (decode true text ≡ ok (some mixed))
decode-encode_printable_example = decode-encode_printable mixed (omega arith) (omega arith)
