-- ===== src/Codec/Base64/Tests.antt =====
-- Base64 on concrete texts.
use code_notebook.Base.{
  ℕ, ◌+◌, ◌*◌, ◌/◌, ◌≡◌, refl, true, List, [], ◌∷◌, ◌++◌, none, some, arith, length,
}
use code_notebook.Run.{ok}
use code_notebook.Codec.Base64.{
  groups, letter, encode, decode, decode_loop, take_digit, finish, base64_table,
  base64_reverse_table,
}
use code_notebook.Codec.Base64.RoundTrip.{decode-encode}
use code_notebook.Codec.Base64.Junk.{keep, decode-keep}

-- "Man" and "Ma"
abbrev man : List ℕ
man = 77 ∷ 97 ∷ 110 ∷ 77 ∷ 97 ∷ []

-- "TWFuTWE="
encoded : encode true man ≡ ok (some (b'T' ∷ b'W' ∷ b'F' ∷ b'u' ∷ b'T' ∷ b'W' ∷ b'E' ∷ b'=' ∷ []))
unfolding encode groups letter base64_table
encoded = refl

-- One letter before a pad is refused, also when a second pad follows.
refused_pad : decode true (b'T' ∷ b'=' ∷ b'=' ∷ b'=' ∷ 0 ∷ []) 4 ≡ ok none
unfolding decode decode_loop take_digit finish base64_reverse_table
refused_pad = refl

abbrev spaced : List ℕ
spaced = b'T' ∷ b'W' ∷ b' ' ∷ b'F' ∷ 13 ∷ 10 ∷ b'u' ∷ []

decode-encode_example :
    (text : List ℕ) × (encode true man ≡ ok (some text))
    × (length text ≡ (length man + 2) / 3 * 4)
    × (decode true (text ++ 0 ∷ 5 ∷ []) (length text) ≡ ok (some man))
decode-encode_example = decode-encode man (5 ∷ []) (omega arith) (omega arith)

decode-keep_example :
    decode true (spaced ++ 0 ∷ []) (length spaced)
    ≡ decode true (keep spaced ++ 0 ∷ []) (length (keep spaced))
decode-keep_example =
    decode-keep true spaced [] (refl, (refl, (refl, (refl, (refl, (refl, (refl, tt)))))))
