-- ===== src/Text/Slashes/Tests.antt =====
-- Escaping on concrete strings.
use code_notebook.Base.{ℕ, ◌≡◌, refl, List, [], ◌∷◌, some}
use code_notebook.Text.Slashes.{addslashes, needs_slash}
use code_notebook.Text.Slashes.Laws.{unslash, unslash-addslashes}

abbrev mixed : List ℕ
mixed = b'a' ∷ 39 ∷ 0 ∷ 92 ∷ []

escaped : addslashes mixed ≡ b'a' ∷ 92 ∷ 39 ∷ 92 ∷ b'0' ∷ 92 ∷ 92 ∷ []
unfolding addslashes needs_slash
escaped = refl

unslash-addslashes_example : unslash (addslashes mixed) ≡ some mixed
unslash-addslashes_example = unslash-addslashes mixed
