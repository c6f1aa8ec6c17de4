-- ===== src/Tgrep/Search/Tests.antt =====
-- c/app/tgrep/tgrep.c: two blocks with two lines behind the first.
use code_notebook.Base.{
  ℕ, ◌≡◌, refl, Bool, true, false, List, [], ◌∷◌, some, ◌==◌, if◌then◌else◌, arith,
}
use code_notebook.Run.{ok}
use code_notebook.Tgrep.Search.{Matcher, search_part, grep_str, print_lines}
use code_notebook.Tgrep.Search.Blocks.{search_part_lem}

abbrev starts : List ℕ → List ℕ → Bool
starts [] text = true
starts (p ∷ pattern) [] = false
starts (p ∷ pattern) (c ∷ text) = if c == p then starts pattern text else false

abbrev contains : List ℕ → List ℕ → Bool
contains [] pattern = starts pattern []
contains (c ∷ text) pattern = if starts pattern (c ∷ text) then true else contains text pattern

abbrev matcher : Matcher
matcher = record {
  ignore_case = false;
  pattern = b'b' ∷ [];
  file = b'f' ∷ [];
  show_filename = true;
}

abbrev first_block : List ℕ
first_block = b'b' ∷ b'\n' ∷ b'a' ∷ b'b' ∷ []

abbrev second_block : List ℕ
second_block = b'c' ∷ b'\n' ∷ b'd' ∷ b'\n' ∷ []

search_part_lem_example :
    search_part contains contains matcher 8 (some first_block ∷ some second_block ∷ []) 5 13
    ≡ ok (1, b'f' ∷ b':' ∷ b' ' ∷ b'a' ∷ b'b' ∷ b'c' ∷ b'\n' ∷ [])
unfolding grep_str print_lines
search_part_lem_example =
    search_part_lem contains contains matcher 8 5 13 (b'b' ∷ []) (b'a' ∷ b'b' ∷ [])
      (second_block ∷ []) ((b'a' ∷ b'b' ∷ b'c' ∷ []) ∷ (b'd' ∷ []) ∷ []) [] (refl, tt) (omega arith)
      (omega arith) (omega arith) (omega arith, omega arith, omega arith, tt, refl) refl
      ((refl, (refl, (refl, tt))), ((refl, tt), tt)) tt
