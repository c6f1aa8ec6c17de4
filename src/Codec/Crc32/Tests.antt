-- ===== src/Codec/Crc32/Tests.antt =====
-- The published check value, and the theorem at its input.
use code_notebook.Base.{ℕ, ◌≡◌, refl, List, [], ◌∷◌, arith}
use code_notebook.Run.{ok}
use code_notebook.Codec.Crc32.{crc32, crc_loop, crc32tab, sign_extend}
use code_notebook.Codec.Crc32.Bitwise.{bitwise_crc32, crc32-bitwise_crc32}

abbrev digits : List ℕ
digits = b'1' ∷ b'2' ∷ b'3' ∷ b'4' ∷ b'5' ∷ b'6' ∷ b'7' ∷ b'8' ∷ b'9' ∷ []

check_value : crc32 digits ≡ ok 0xcbf43926
unfolding crc32 crc_loop crc32tab sign_extend
check_value = refl

crc32-bitwise_crc32_example : crc32 digits ≡ ok (bitwise_crc32 digits)
crc32-bitwise_crc32_example = crc32-bitwise_crc32 digits (omega arith) (omega arith)
