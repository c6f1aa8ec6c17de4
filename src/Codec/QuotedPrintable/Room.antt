-- ===== src/Codec/QuotedPrintable/Room.antt =====
-- The block of s_quoted_printable_decode_alloc is large enough.
use code_notebook.Base.{
  ℕ, zero, suc, ◌+◌, ◌-◌, ◌%◌, ◌^◌, ◌≤◌, ◌<◌, ◌≡◌, ◌≢◌, refl, ap, Bool, true, false, List, [], ◌∷◌,
  Option, none, some, arith, ltb, leb, ◌==◌, if◌then◌else◌, length, length-append, length-take,
  take, Bool-cases, inl, inr,
}
use code_notebook.Run.{Run, Ends, ends, Ends-bind, Ends-if}
use code_notebook.Codec.QuotedPrintable.{
  equals, hexval, hexval_table, estimate, store, skip_blanks, after_break, Coded, stop, bad, byte,
  soft, second_digit, soft_end, read_code, after_code, decode_loop, end_text, decode,
}

-- As many bytes as the first loop of the decoder leaves room for.
pub room : List ℕ → ℕ
room [] = 0
room (b ∷ []) = 1
room (b ∷ d ∷ str) =
    let coded = room str in
    let plain = suc (room (d ∷ str)) in
    if b == 0 then length str + 2 else if b == equals then coded else plain

room-le : (str : List ℕ) → room str ≤ length str
unfolding room
room-le [] = omega arith
room-le (b ∷ []) = omega arith
room-le (b ∷ d ∷ str) = ground (arith, room-le str, room-le (d ∷ str))

pub estimate-room :
    (str : List ℕ) (n : ℕ) → length str ≤ n → estimate str n + length str ≡ n + room str
unfolding estimate room
estimate-room [] n h = omega arith
estimate-room (b ∷ []) n h = omega arith
estimate-room (b ∷ d ∷ str) n h =
    ground (arith, estimate-room str (n - 2), estimate-room (d ∷ str) n)

pub room-plain : (b : ℕ) (str : List ℕ) → b ≢ 0 → b ≢ equals → room (b ∷ str) ≡ suc (room str)
unfolding room
room-plain b [] h k = refl
room-plain b (d ∷ str) h k =
    let no_end : (b == 0) ≡ false = ground (arith, h) in
    let no_code : (b == equals) ≡ false = ground (arith, k) in rw (no_end, no_code) refl

-- A byte that stands in the table is no end and no `=`.
pub room-listed : (b : ℕ) (str : List ℕ) → hexval b ≢ 64 → room (b ∷ str) ≡ suc (room str)
unfolding hexval_table
room-listed b str h = room-plain b str (λ e. h (ap hexval e)) (λ e. h (ap hexval e))

-- What is read behind a `=` and a byte leaves room for what follows, in `n` bytes of the block and
-- `m` of the input.
data Roomy (n m : ℕ) : Coded → Type 0 where
  stopped : Roomy n m stop
  failed : Roomy n m bad
  one_byte :
      (b : ℕ) (rest : List ℕ) → suc (room rest) ≤ n → length rest ≤ m → Roomy n m (byte b rest)
  softly : (rest : List ℕ) → room rest ≤ n → length rest ≤ m → Roomy n m (soft rest)

second_digit-Roomy :
    (h_nbl : ℕ) (str : List ℕ) → Roomy (room str) (length str) (second_digit h_nbl str)
unfolding second_digit
second_digit-Roomy h_nbl [] = failed
second_digit-Roomy h_nbl (l ∷ str) = elim (Bool-cases (leb 16 (hexval l))) [
  | inl no_digit ↦ rw no_digit failed
  | inr digit ↦
      rw (digit, room-listed l str (λ e. absurd (ground arith)))
        (one_byte _ str (omega arith) (omega arith))
]

after_break-room :
    (h : ℕ) (str : List ℕ)
    → (room (after_break h str) ≤ room str) × (length (after_break h str) ≤ length str)
unfolding after_break hexval_table
after_break-room h [] = omega arith
after_break-room h (d ∷ str) = ground (arith, room-listed 10 str)

pub room_coded : (b h : ℕ) (str : List ℕ) → (b == equals) ≡ true → room (b ∷ h ∷ str) ≡ room str
unfolding room
room_coded b h str e = let more : (b == 0) ≡ false = ground arith in rw (more, e) refl

Roomy-weaken : (n m n' m' : ℕ) → n ≤ n' → m ≤ m' → (c : Coded) → Roomy n m c → Roomy n' m' c
Roomy-weaken n m n' m' p q c stopped = stopped
Roomy-weaken n m n' m' p q c failed = failed
Roomy-weaken n m n' m' p q c (one_byte b rest r l) = one_byte b rest (omega arith) (omega arith)
Roomy-weaken n m n' m' p q c (softly rest r l) = softly rest (omega arith) (omega arith)

ended-Roomy : (h : ℕ) (str : List ℕ) → Roomy (room str) (length str) (soft (after_break h str))
ended-Roomy h str = let (r, l) = after_break-room h str in softly (after_break h str) r l

soft_end-Roomy :
    (h : ℕ) (str : List ℕ) → Roomy (room str) (length str) (soft_end (skip_blanks h str))
unfolding soft_end skip_blanks
soft_end-Roomy h [] = elim (Bool-cases (hexval h == 32)) [
  | inl blank ↦ rw blank failed
  | inr other ↦ rw other (ended-Roomy h [])
]
soft_end-Roomy h (d ∷ str) =
    let next = soft_end-Roomy d str in
    elim (Bool-cases (hexval h == 32)) [
      | inr other ↦ rw other (ended-Roomy h (d ∷ str))
      | inl blank ↦ elim (Bool-cases (hexval d == 64)) [
        | inl unknown ↦ rw (blank, unknown) failed
        | inr listed ↦
            let less = room-listed d str (λ e. absurd (ground arith)) in
            rw (blank, listed)
              (Roomy-weaken (room str) (length str) (room (d ∷ str)) (suc (length str))
                (omega arith) (omega arith) _ next)
      ]
    ]

read_code-Roomy : (h : ℕ) (str : List ℕ) → Roomy (room str) (length str) (read_code (h ∷ str))
unfolding read_code
read_code-Roomy h str = elim (Bool-cases (h == 0)) [
  | inl end ↦ rw end stopped
  | inr more ↦ elim (Bool-cases (ltb (hexval h) 16)) [
    | inl digit ↦ rw (more, digit) (second_digit-Roomy (hexval h) str)
    | inr other ↦ elim (Bool-cases (ltb (hexval h) 64)) [
      | inl space ↦ rw (more, other, space) (soft_end-Roomy h str)
      | inr unknown ↦ rw (more, other, unknown) failed
    ]
  ]
]

-- The decoder has failed, or what it has written fits.
abbrev pub Fits : ℕ → Option (List ℕ) → Type 0
Fits buf_size none = Unit {0}
Fits buf_size (some out) = length out ≤ buf_size

store-Ends :
    (buf_size : ℕ) (out : List ℕ) (b k : ℕ)
    → length out + suc k ≤ buf_size
    → Ends (λ (out' : List ℕ). length out' + k ≤ buf_size) (store buf_size out b)
unfolding store
store-Ends buf_size out b k h =
    let inside : leb (length out) buf_size ≡ true = ground arith in
    rw inside (ends (omega (arith, length-append out (b ∷ []))))

after_code-Ends :
    (again : List ℕ → List ℕ → Run (Option (List ℕ))) (buf_size : ℕ) (out : List ℕ) (n m : ℕ)
    → length out + n ≤ buf_size
    → ((str out' : List ℕ)
        → length str ≤ m
        → length out' + room str ≤ buf_size
        → Ends (Fits buf_size) (again str out'))
    → (c : Coded) → Roomy n m c
    → Ends (Fits buf_size) (after_code again buf_size out c)
unfolding after_code
after_code-Ends again buf_size out n m h next c stopped = ends (omega arith)
after_code-Ends again buf_size out n m h next c failed = ends tt
after_code-Ends again buf_size out n m h next c (one_byte b rest r l) =
    Ends-bind (λ out' fits. next rest out' l fits)
      (store-Ends buf_size out b (room rest) (omega arith))
after_code-Ends again buf_size out n m h next c (softly rest r l) = next rest out l (omega arith)

-- The bytes behind a `=`.
coded-Ends :
    (fuel buf_size b : ℕ) (str out : List ℕ)
    → (b == equals) ≡ true
    → length out + room (b ∷ str) ≤ buf_size
    → ((later out' : List ℕ)
        → length later ≤ length str
        → length out' + room later ≤ buf_size
        → Ends (Fits buf_size) (decode_loop fuel buf_size later out'))
    → Ends (Fits buf_size) (
        after_code
          (λ later out'. decode_loop fuel buf_size later out')
          buf_size
          out
          (read_code str))
unfolding after_code read_code
coded-Ends fuel buf_size b [] out e fits next = ends (omega arith)
coded-Ends fuel buf_size b (h ∷ str) out e fits next =
    after_code-Ends (λ later out'. decode_loop fuel buf_size later out') buf_size out (room str)
      (length str) (ground (arith, room_coded b h str))
      (λ later out' less room_left. next later out' (omega arith) room_left) (read_code (h ∷ str))
      (read_code-Roomy h str)

decode_loop-Fits :
    (fuel buf_size : ℕ) (str out : List ℕ)
    → length str < fuel
    → length out + room str ≤ buf_size
    → Ends (Fits buf_size) (decode_loop fuel buf_size str out)
unfolding decode_loop
decode_loop-Fits zero buf_size str out h fits = absurd (omega arith)
decode_loop-Fits (suc fuel) buf_size [] out h fits = ends (omega arith)
decode_loop-Fits (suc fuel) buf_size (b ∷ str) out h fits =
    let next : (later out' : List ℕ)
        → length later ≤ length str
        → length out' + room later ≤ buf_size
        → Ends (Fits buf_size) (decode_loop fuel buf_size later out') =
      λ later out' less room_left.
        decode_loop-Fits fuel buf_size later out' (omega arith) room_left in
    elim (Bool-cases (b == 0)) [
      | inl end ↦ rw end (ends (omega arith))
      | inr more ↦ elim (Bool-cases (b == equals)) [
        | inl coded ↦ rw (more, coded) (coded-Ends fuel buf_size b str out coded fits next)
        | inr plain ↦
            let one = room-plain b str (λ e. absurd (ground arith)) (λ e. absurd (ground arith)) in
            rw (more, plain)
              (Ends-bind (λ out' room_left. next str out' (omega arith) room_left)
                (store-Ends buf_size out b (room str) (omega arith)))
      ]
    ]

end_text-Fits : (size : ℕ) (r : Option (List ℕ)) → Fits size r → Ends (Fits size) (end_text size r)
unfolding end_text
end_text-Fits size none h = ends tt
end_text-Fits size (some out) h =
    let inside : leb (length out) size ≡ true = ground arith in rw inside (ends h)

-- s_quoted_printable_decode_alloc, which reads as many bytes of its input as the low 32 bits of
-- their number, returns on every input and writes inside the block that it
-- asked for; a text that it returns, with its zero, fits there.
pub decode-Fits :
    (malloc : Bool) (str : List ℕ)
    → Ends (Fits (estimate (take (length str % 2 ^ 32) str) (length str))) (decode malloc str)
unfolding decode
decode-Fits malloc str =
    let i = length str % 2 ^ 32 in
    let seen = take i str in
    let size = estimate seen (length str) in
    let counted : length seen ≡ i = omega (arith, length-take i str) in
    Ends-if malloc
      (λ e. Ends-bind (end_text-Fits size) (
        decode_loop-Fits (i + 1) size seen [] (omega arith)
          (omega (arith, estimate-room seen (length str)))))
      (λ e. ends tt)
