-- ===== src/Schar/Tests.antt =====
-- A string that grows, on concrete text.
use code_notebook.Base.{
  Bool, true, none, ◌≡◌, if◌then◌else◌, ℕ, refl, List, [], ◌∷◌, ◌++◌, ◌-◌, ◌^◌, some, arith,
  replicate, length-replicate, take,
}
use code_notebook.Run.{Ends, ok}
use code_notebook.Schar.{Schar, Malloc, catb}
use code_notebook.Schar.Grow.{IsMalloc, content}
use code_notebook.Schar.Search.{strpos, strstr_alloc}
use code_notebook.Schar.Search.Place.{place_of, strpos-place_of}
use code_notebook.Schar.Write.{Wrote, catb-Wrote}

abbrev generous : Malloc
generous n = some (replicate n 0)

generous-IsMalloc : IsMalloc generous
generous-IsMalloc n b e = ground (arith, length-replicate {A = ℕ} n 0)

abbrev greeting : Schar
greeting = record { s = some (b'h' ∷ b'i' ∷ 0 ∷ []); len = 2; size = 3 }

abbrev name : List ℕ
name = b' ' ∷ b'A' ∷ b'n' ∷ b'n' ∷ []

catb-Wrote_example :
    Ends (Wrote generous greeting (content greeting ++ take 4 name)) (catb generous greeting name 4)
catb-Wrote_example =
    catb-Wrote generous generous-IsMalloc name 4 (omega arith) greeting (omega arith)
      (omega arith, omega arith, refl)

-- Text that holds the part twice, and its beginning before.
abbrev banana : List ℕ
banana = b'b' ∷ b'a' ∷ b'n' ∷ b'n' ∷ b'a' ∷ b'n' ∷ b'a' ∷ b'n' ∷ b'a' ∷ 0 ∷ []

abbrev fruit : Schar
fruit = record { s = some banana; len = 9; size = 10 }

abbrev ana : List ℕ
ana = b'a' ∷ b'n' ∷ b'a' ∷ []

strpos-place_of_example :
    (strpos fruit ana 2 ≡ ok (elim (place_of fruit ana 2) [ none ↦ 2 ^ 32 - 1 | some i ↦ i ]))
    × ((before_substr : Bool)
        → strstr_alloc true fruit ana (b's' ∷ 0 ∷ []) 2 before_substr
          ≡ ok (elim (place_of fruit ana 2) [
            | none ↦ none
            | some i ↦ some (if before_substr then take i banana else ana ++ b's' ∷ [])
          ]))
strpos-place_of_example =
    strpos-place_of banana 9 10 2 ana (b's' ∷ 0 ∷ []) (ana ++ b's' ∷ []) [] (omega arith)
      (omega arith) (omega arith) refl (refl, (refl, (refl, (refl, tt))))
