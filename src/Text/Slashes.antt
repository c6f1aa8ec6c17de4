-- ===== src/Text/Slashes.antt =====
-- str_addslashes, str_toupper and str_tolower of c/src/string/str_utils.c.
-- A string is the list of its `len` bytes, so it may hold zeros.
pub mod Laws
mod Tests
use code_notebook.Base.{ℕ, ◌+◌, ◌-◌, Bool, ◌&&◌, ◌||◌, List, [], ◌∷◌, map, leb, ◌==◌, if◌then◌else◌}

abbrev pub backslash : ℕ
backslash = 92

-- the three cases that fall through
pub needs_slash : ℕ → Bool
needs_slash c = c == 39 || c == 34 || c == backslash

-- str_addslashes without its final zero; the returned number is the length of the list
pub addslashes : List ℕ → List ℕ
addslashes [] = []
addslashes (c ∷ source) =
    let rest = addslashes source in
    if c == 0
    then backslash ∷ b'0' ∷ rest
    else if needs_slash c
    then backslash ∷ c ∷ rest
    else c ∷ rest

-- toupper and tolower of the C locale
pub toupper : ℕ → ℕ
toupper c = if leb b'a' c && leb c b'z' then c - 32 else c

pub tolower : ℕ → ℕ
tolower c = if leb b'A' c && leb c b'Z' then c + 32 else c

-- str_toupper and str_tolower, in place
pub str_toupper : List ℕ → List ℕ
str_toupper s = map toupper s

pub str_tolower : List ℕ → List ℕ
str_tolower s = map tolower s
