-- ===== src/Tgrep/Tests.antt =====
-- The name of September.
use code_notebook.Base.{◌≡◌, refl, [], ◌∷◌, some}
use code_notebook.Tgrep.{lower, same_letters, conv_month_2_int}

any_case : conv_month_2_int (b's' ∷ b'E' ∷ b'P' ∷ b't' ∷ []) ≡ some 9
unfolding conv_month_2_int same_letters lower
any_case = refl
