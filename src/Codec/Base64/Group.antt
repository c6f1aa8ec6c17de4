-- ===== src/Codec/Base64/Group.antt =====
-- Letters and their values, and the decoder on one letter or pad.
use Prim.Native.Nat.{bit_and, bit_or}
use code_notebook.Base.{
  ℕ, suc, ◌+◌, ◌-◌, ◌*◌, ◌/◌, ◌%◌, ◌^◌, ◌<◌, ◌≡◌, refl, Bool, true, false, ◌&&◌, not, List, [], ◌∷◌,
  ◌++◌, some, ◌==◌, arith,
}
use code_notebook.Base.Bits.{holds_below, holds_below_at, bit_and_mask, bit_or_disjoint}
use code_notebook.Run.{ok}
use code_notebook.Codec.Base64.{
  Entry, bad, space, digit, base64_table, base64_reverse_table, base64_pad, letter, State, reverse,
  take_digit, finish, decode_loop,
}

is_digit : Entry → ℕ → Bool
is_digit (digit v) d = v == d
is_digit bad d = false
is_digit space d = false

is_digit_sound : (e : Entry) (d : ℕ) → is_digit e d ≡ true → e ≡ digit d
unfolding is_digit
is_digit_sound (digit v) d h = ground arith
is_digit_sound bad d h = ground arith
is_digit_sound space d h = ground arith

abbrev is_letter : ℕ → ℕ → Bool
is_letter c d = is_digit (reverse c) d && not (c == 0) && not (c == base64_pad)

letters : holds_below 64 (λ d. is_letter (letter d) d) ≡ true
unfolding holds_below is_digit letter base64_table base64_reverse_table
letters = refl

pub letter-reverse :
    (d : ℕ)
    → d < 64
    → (reverse (letter d) ≡ digit d)
      × ((letter d == 0) ≡ false)
      × ((letter d == base64_pad) ≡ false)
letter-reverse d h =
    let found = holds_below_at (λ d. is_letter (letter d) d) 64 d h letters in
    (is_digit_sound _ d (ground arith), ground arith, ground arith)

-- One letter is read and taken.
pub decode_loop-letter :
    (d : ℕ) (current : List ℕ) (n : ℕ) (s : State)
    → d < 64
    → decode_loop (letter d ∷ current) (suc n) s ≡ decode_loop current n (take_digit (digit d) s)
unfolding decode_loop
decode_loop-letter d current n s h =
    let (value, nonzero, no_pad) = letter-reverse d h in
    let one : suc n - 1 ≡ n = omega arith in
    let left : (suc n == 0) ≡ false = ground arith in rw (no_pad, nonzero, left, value, one)

-- A pad is skipped unless one letter of a group stands before it.
pub decode_loop-pad :
    (current : List ℕ) (n i : ℕ) (done : List ℕ) (part : ℕ)
    → (i % 4 == 1) ≡ false
    → decode_loop (base64_pad ∷ current) (suc n) (record { i = i; done = done; part = part })
      ≡ decode_loop current n (record { i = i; done = done; part = part })
unfolding decode_loop
decode_loop-pad current n i done part h =
    let one : suc n - 1 ≡ n = omega arith in
    let left : (suc n == 0) ≡ false = ground arith in rw (left, h, one)

-- The terminating zero ends the loop.
pub decode_loop-end :
    (current : List ℕ) (n : ℕ) (s : State) → decode_loop (0 ∷ current) n s ≡ ok (some s.done)
unfolding decode_loop finish
decode_loop-end current n s = refl

-- The state after the first two, three and four letters of a group.
module _ (i : ℕ) (done : List ℕ) (part : ℕ) (aligned : i % 4 ≡ 0) (d1 d2 : ℕ) where
  abbrev start : State
  start = record { i = i; done = done; part = part }

  abbrev joined : ℕ
  joined = bit_or (d1 * 2 ^ 2 % 256) (d2 / 2 ^ 4)

  pub take_two :
      take_digit (digit d2) (take_digit (digit d1) start)
      ≡ record { i = i + 1 + 1; done = done ++ joined ∷ []; part = bit_and d2 0x0f * 2 ^ 4 % 256 }
  unfolding take_digit
  take_two = ground arith

  pub take_three :
      (d3 : ℕ)
      → take_digit (digit d3) (take_digit (digit d2) (take_digit (digit d1) start)) ≡ record {
        i = i + 1 + 1 + 1;
        done = (done ++ joined ∷ []) ++ bit_or (bit_and d2 0x0f * 2 ^ 4 % 256) (d3 / 2 ^ 2) ∷ [];
        part = bit_and d3 0x03 * 2 ^ 6 % 256;
      }
  take_three d3 = rw take_two (unfold take_digit in ground arith)

  pub take_four :
      (d3 d4 : ℕ)
      → take_digit
          (digit d4)
          (take_digit (digit d3) (take_digit (digit d2) (take_digit (digit d1) start)))
        ≡ record {
          i = i + 1 + 1 + 1 + 1;
          done =
              ((done ++ joined ∷ []) ++ bit_or (bit_and d2 0x0f * 2 ^ 4 % 256) (d3 / 2 ^ 2) ∷ [])
              ++ bit_or (bit_and d3 0x03 * 2 ^ 6 % 256) d4 ∷ [];
          part = 0;
        }
  take_four d3 d4 = rw (take_three d3) (unfold take_digit in ground arith)

-- The letters of a group, and what joins them again.
pub first_letter : (a : ℕ) → a < 256 → a / 2 ^ 2 < 64
first_letter a h = omega arith

pub second_letter :
    (a b : ℕ)
    → b < 256
    → (bit_and a 0x03 * 2 ^ 4 + b / 2 ^ 4 < 64)
      × (bit_and a 0x03 * 2 ^ 4 + b / 2 ^ 4 ≡ a % 4 * 16 + b / 16)
second_letter a b h = (omega (arith, bit_and_mask 2 a), omega (arith, bit_and_mask 2 a))

pub third_letter :
    (b c : ℕ)
    → c < 256
    → (bit_and b 0x0f * 2 ^ 2 + c / 2 ^ 6 < 64)
      × (bit_and b 0x0f * 2 ^ 2 + c / 2 ^ 6 ≡ b % 16 * 4 + c / 64)
third_letter b c h = (omega (arith, bit_and_mask 4 b), omega (arith, bit_and_mask 4 b))

pub fourth_letter : (c : ℕ) → (bit_and c 0x3f < 64) × (bit_and c 0x3f ≡ c % 64)
fourth_letter c = (omega (arith, bit_and_mask 6 c), omega (arith, bit_and_mask 6 c))

pub join_first :
    (a b : ℕ)
    → a < 256
    → b < 256
    → bit_or (a / 2 ^ 2 * 2 ^ 2 % 256) ((a % 4 * 16 + b / 16) / 2 ^ 4) ≡ a
join_first a b p q =
    let e : a / 2 ^ 2 * 2 ^ 2 % 256 ≡ a / 4 * 2 ^ 2 = omega arith in
    rw e (omega (arith, bit_or_disjoint 2 (a / 4) ((a % 4 * 16 + b / 16) / 2 ^ 4) (omega arith)))

pub join_second :
    (d b c : ℕ)
    → b < 256
    → c < 256
    → bit_or (bit_and (d * 16 + b / 16) 0x0f * 2 ^ 4 % 256) ((b % 16 * 4 + c / 64) / 2 ^ 2) ≡ b
join_second d b c p q =
    let e : bit_and (d * 16 + b / 16) 0x0f * 2 ^ 4 % 256 ≡ b / 16 * 2 ^ 4 =
      omega (arith, bit_and_mask 4 (d * 16 + b / 16)) in
    rw e (omega (arith, bit_or_disjoint 4 (b / 16) ((b % 16 * 4 + c / 64) / 2 ^ 2) (omega arith)))

pub join_third :
    (d c : ℕ) → c < 256 → bit_or (bit_and (d * 4 + c / 64) 0x03 * 2 ^ 6 % 256) (c % 64) ≡ c
join_third d c p =
    let e : bit_and (d * 4 + c / 64) 0x03 * 2 ^ 6 % 256 ≡ c / 64 * 2 ^ 6 =
      omega (arith, bit_and_mask 2 (d * 4 + c / 64)) in
    rw e (omega (arith, bit_or_disjoint 6 (c / 64) (c % 64) (omega arith)))
