-- ===== src/Array/Implode/Tests.antt =====
-- Two values with an empty slot between them.
use code_notebook.Base.{◌≡◌, refl, true, [], ◌∷◌, some, arith}
use code_notebook.Run.{ok}
use code_notebook.Array.{Array, empty_slot}
use code_notebook.Array.Implode.{string, array_implode_alloc, held}
use code_notebook.Array.Implode.Joined.{array_implode_alloc-joins}

abbrev pair : Array
pair = record {
  n = 2;
  size = 3;
  slots =
      record { key = some (b'a' ∷ []); val = some (b'x' ∷ []); hash = 5 }
      ∷ empty_slot
      ∷ record { key = some (b'b' ∷ []); val = some (b'y' ∷ b'z' ∷ []); hash = 6 }
      ∷ [];
}

array_implode_alloc-joins_example :
    array_implode_alloc (λ size. true) (b',' ∷ []) pair
    ≡ ok (string (b'x' ∷ b',' ∷ b'y' ∷ b'z' ∷ []))
unfolding held
array_implode_alloc-joins_example =
    array_implode_alloc-joins (λ size. true) (b',' ∷ []) pair
      (record { key = some (b'a' ∷ []); val = some (b'x' ∷ []); hash = 5 })
      (empty_slot ∷ record { key = some (b'b' ∷ []); val = some (b'y' ∷ b'z' ∷ []); hash = 6 } ∷ [])
      (b'x' ∷ []) (λ size. refl) (omega arith) refl refl (omega arith)
      (omega arith, (omega arith, tt)) (omega arith) (omega arith)
