-- ===== src/Block.antt =====
-- Blocks of bytes: memcpy, and what a block holds after it.
use code_notebook.Base.{
  ℕ, zero, suc, ◌+◌, ◌≤◌, ◌≡◌, refl, ap, List, [], ◌∷◌, ◌++◌, arith, ltb, if◌then◌else◌, length,
  take, drop, length-append, length-take, length-drop,
}
use code_notebook.Run.{Run, ok, fault}

-- memcpy(dest + at, src, n), which must stay inside both blocks
unfoldable pub memcpy : List ℕ → ℕ → List ℕ → ℕ → Run (List ℕ)
memcpy dest at src n =
    if ltb (length src) n
    then fault
    else if ltb (length dest) (at + n)
    then fault
    else ok (take at dest ++ take n src ++ drop (at + n) dest)

abbrev pub copied : List ℕ → ℕ → List ℕ → ℕ → List ℕ
copied b len src n = take len b ++ take n src ++ drop (len + n) b

pub memcpy-ok :
    (dest : List ℕ) (at : ℕ) (src : List ℕ) (n : ℕ)
    → n ≤ length src
    → at + n ≤ length dest
    → memcpy dest at src n ≡ ok (copied dest at src n)
unfolding memcpy
memcpy-ok dest at src n p q = ground arith

take-append-exact : (n : ℕ) (a b : List ℕ) → length a ≡ n → take n (a ++ b) ≡ a
take-append-exact zero [] b h = refl
take-append-exact zero (x ∷ a) b h = absurd (omega (arith, h))
take-append-exact (suc n) [] b h = absurd (omega (arith, h))
take-append-exact (suc n) (x ∷ a) b h = ap (◌∷◌ x) (take-append-exact n a b (omega (arith, h)))

module _ (b : List ℕ) (len : ℕ) (src : List ℕ) (n : ℕ) where
  pub length-copied : n ≤ length src → len + n ≤ length b → length (copied b len src n) ≡ length b
  length-copied p q = omega (
    arith,
    length-append (take len b ++ take n src) (drop (len + n) b),
    length-append (take len b) (take n src),
    length-take len b,
    length-take n src,
    length-drop (len + n) b,
  )

  pub take-copied :
      n ≤ length src
      → len + n ≤ length b
      → take (len + n) (copied b len src n) ≡ take len b ++ take n src
  take-copied p q =
      let front = take len b ++ take n src in
      let size_front : length front ≡ len + n =
        omega
          (arith, length-append (take len b) (take n src), length-take len b, length-take n src) in
      take-append-exact (len + n) front (drop (len + n) b) size_front
