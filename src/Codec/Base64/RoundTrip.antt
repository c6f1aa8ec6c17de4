-- ===== src/Codec/Base64/RoundTrip.antt =====
-- Decoding what was encoded.
use mathlib.Core.List.{append-nil, append_assoc}
use Prim.Native.Nat.{bit_and}
use code_notebook.Base.{
  ℕ, suc, ◌+◌, ◌-◌, ◌*◌, ◌/◌, ◌%◌, ◌^◌, ◌<◌, ◌≡◌, refl, ◌∙◌, true, false, List, [], ◌∷◌, ◌++◌, some,
  length, ltb, leb, arith,
}
use code_notebook.Base.Bytes.{AreBytes}
use code_notebook.Run.{ok}
use code_notebook.Codec.Base64.{decode_loop, groups, encode, decode}
use code_notebook.Codec.Base64.Group.{
  decode_loop-letter, decode_loop-pad, decode_loop-end, take_two, take_three, take_four,
  first_letter, second_letter, third_letter, fourth_letter, join_first, join_second, join_third,
}

-- Four letters give their three bytes, three letters two, and two letters one.
module _ (i : ℕ) (done : List ℕ) (part : ℕ) (aligned : i % 4 ≡ 0) (n : ℕ) (current : List ℕ) where
  four_letters :
      (a b c : ℕ)
      → a < 256
      → b < 256
      → c < 256
      → decode_loop
          (groups (a ∷ b ∷ c ∷ []) ++ current)
          (suc (suc (suc (suc n))))
          (record { i = i; done = done; part = part })
        ≡ decode_loop current n
            (record { i = i + 1 + 1 + 1 + 1; done = done ++ a ∷ b ∷ c ∷ []; part = 0 })
  unfolding groups
  four_letters a b c p q r =
      let (lt2, e2) = second_letter a b q in
      let (lt3, e3) = third_letter b c r in
      let (lt4, e4) = fourth_letter c in
      rw
        (
          decode_loop-letter _ _ _ _ (first_letter a p),
          decode_loop-letter _ _ _ _ lt2,
          decode_loop-letter _ _ _ _ lt3,
          decode_loop-letter _ _ _ _ lt4,
          take_four i done part aligned,
          e2,
          e3,
          e4,
          join_first a b p q,
          join_second (a % 4) b c q r,
          join_third (b % 16) c r,
          append_assoc,
          append_assoc,
        )
        refl

  three_letters :
      (a b : ℕ)
      → a < 256
      → b < 256
      → decode_loop
          (groups (a ∷ b ∷ []) ++ 0 ∷ current)
          (suc (suc (suc (suc n))))
          (record { i = i; done = done; part = part })
        ≡ ok (some (done ++ a ∷ b ∷ []))
  unfolding groups
  three_letters a b p q =
      let (lt2, e2) = second_letter a b q in
      let (lt3, e3) = third_letter b 0 (omega arith) in
      let e : bit_and b 0x0f * 2 ^ 2 ≡ bit_and b 0x0f * 2 ^ 2 + 0 / 2 ^ 6 = omega arith in
      rw
        (
          decode_loop-letter _ _ _ _ (first_letter a p),
          decode_loop-letter _ _ _ _ lt2,
          e,
          decode_loop-letter _ _ _ _ lt3,
          take_three i done part aligned,
          decode_loop-pad _ _ (i + 1 + 1 + 1) _ _ (ground arith),
          decode_loop-end,
          e2,
          e3,
          join_first a b p q,
          join_second (a % 4) b 0 q (omega arith),
          append_assoc,
        )
        refl

  two_letters :
      (a : ℕ)
      → a < 256
      → decode_loop
          (groups (a ∷ []) ++ 0 ∷ current)
          (suc (suc (suc (suc n))))
          (record { i = i; done = done; part = part })
        ≡ ok (some (done ++ a ∷ []))
  unfolding groups
  two_letters a p =
      let (lt2, e2) = second_letter a 0 (omega arith) in
      let e : bit_and a 0x03 * 2 ^ 4 ≡ bit_and a 0x03 * 2 ^ 4 + 0 / 2 ^ 4 = omega arith in
      rw
        (
          decode_loop-letter _ _ _ _ (first_letter a p),
          e,
          decode_loop-letter _ _ _ _ lt2,
          take_two i done part aligned,
          decode_loop-pad _ _ (i + 1 + 1) _ _ (ground arith),
          decode_loop-pad _ _ (i + 1 + 1) _ _ (ground arith),
          decode_loop-end,
          e2,
          join_first a 0 p (omega arith),
        )
        refl

pub length-groups : (xs : List ℕ) → length (groups xs) ≡ (length xs + 2) / 3 * 4
unfolding groups
length-groups [] = refl
length-groups (a ∷ []) = refl
length-groups (a ∷ b ∷ []) = refl
length-groups (a ∷ b ∷ c ∷ xs) = omega (arith, length-groups xs)

decode_loop-groups :
    (xs : List ℕ) (i : ℕ) (done : List ℕ) (part : ℕ) (current : List ℕ)
    → AreBytes xs
    → i % 4 ≡ 0
    → decode_loop
        (groups xs ++ 0 ∷ current)
        (length (groups xs))
        (record { i = i; done = done; part = part })
      ≡ ok (some (done ++ xs))
unfolding groups
decode_loop-groups [] i done part current h z = rw (decode_loop-end, append-nil)
decode_loop-groups (a ∷ []) i done part current (p, _) z = two_letters i done part z 0 current a p
decode_loop-groups (a ∷ b ∷ []) i done part current (p, (q, _)) z =
    three_letters i done part z 0 current a b p q
decode_loop-groups (a ∷ b ∷ c ∷ xs) i done part current (p, (q, (r, h))) z =
    four_letters i done part z (length (groups xs)) (groups xs ++ 0 ∷ current) a b c p q r
    ∙ decode_loop-groups xs (i + 1 + 1 + 1 + 1) (done ++ a ∷ b ∷ c ∷ []) 0 current h (omega arith)
    ∙ rw append_assoc

-- Where the size of the text fits in an `int`, decoding the text of any bytes, with its terminating zero and its
-- length, gives the bytes back, and the text fills the block that the encoder allocates,
-- (length + 2) / 3 * 4 bytes and one for the zero.
pub decode-encode :
    (str rest : List ℕ)
    → AreBytes str
    → (length str + 2) / 3 * 4 < 2 ^ 31
    → (text : List ℕ) × (encode true str ≡ ok (some text))
      × (length text ≡ (length str + 2) / 3 * 4)
      × (decode true (text ++ 0 ∷ rest) (length text) ≡ ok (some str))
unfolding encode decode
decode-encode str rest h fits =
    let positive : ltb (2 ^ 31 - 1) (length str + 2) ≡ false = ground arith in
    let fewer : leb (2 ^ 30) ((length str + 2) / 3) ≡ false = ground arith in
    let in_range : leb (2 ^ 31) ((length str + 2) / 3 * 4) ≡ false = ground arith in
    let encoded : encode true str ≡ ok (some (groups str)) = rw (positive, fewer, in_range) refl in
    (groups str, encoded, length-groups str, decode_loop-groups str 0 [] 0 rest h refl)
