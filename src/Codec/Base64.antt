-- ===== src/Codec/Base64.antt =====
-- c/src/code/base64.c. A byte is a number below 256. `room` says whether malloc succeeds.
-- A read of a table past its end is a 0 or -2 here; no index of the code goes there.
mod Tables
pub mod Group
pub mod RoundTrip
pub mod Junk
mod Tests
use Prim.Native.Nat.{bit_and, bit_or}
use code_notebook.Base.{
  ℕ, zero, suc, ◌+◌, ◌-◌, ◌*◌, ◌/◌, ◌%◌, ◌^◌, Bool, ◌&&◌, ◌||◌, List, [], ◌∷◌, ◌++◌, Option, none,
  some, ltb, leb, ◌==◌, if◌then◌else◌, length, get_or,
}
use code_notebook.Run.{Run, ok, fault}
pub use Tables.{Entry, bad, space, digit}
unfoldable pub use Tables.{base64_table, base64_reverse_table}

abbrev pub base64_pad : ℕ
base64_pad = b'='

pub letter : ℕ → ℕ
letter i = get_or base64_table i 0

-- What is written for three bytes, and for the two or one that are left at the end.
pub groups : List ℕ → List ℕ
groups [] = []
groups (a ∷ []) =
    letter (a / 2 ^ 2) ∷ letter (bit_and a 0x03 * 2 ^ 4) ∷ base64_pad ∷ base64_pad ∷ []
groups (a ∷ b ∷ []) =
    letter (a / 2 ^ 2)
    ∷ letter (bit_and a 0x03 * 2 ^ 4 + b / 2 ^ 4)
    ∷ letter (bit_and b 0x0f * 2 ^ 2)
    ∷ base64_pad
    ∷ []
groups (a ∷ b ∷ c ∷ rest) =
    letter (a / 2 ^ 2)
    ∷ letter (bit_and a 0x03 * 2 ^ 4 + b / 2 ^ 4)
    ∷ letter (bit_and b 0x0f * 2 ^ 2 + c / 2 ^ 6)
    ∷ letter (bit_and c 0x3f)
    ∷ groups rest

-- s_base64_encode_alloc, without the '\0' that it appends. The sum `str_len + 2` of an `int`
-- is negative when it passes 2 ^ 31 - 1; a size of the text that overflows `int` is a fault.
pub encode : Bool → List ℕ → Run (Option (List ℕ))
encode room str =
    let str_len = length str in
    if ltb (2 ^ 31 - 1) (str_len + 2)
    then ok none
    else if leb (2 ^ 30) ((str_len + 2) / 3)
    then ok none
    else if leb (2 ^ 31) ((str_len + 2) / 3 * 4)
    then fault
    else ok (if room then some (groups str) else none)

-- The decoder's variables: `i`, the finished bytes result[0] to result[j - 1], and result[j].
pub record State : Type 0 where
  pub i : ℕ
  pub done : List ℕ
  pub part : ℕ

abbrev pub reverse : ℕ → Entry
reverse ch = get_or base64_reverse_table ch bad

-- the `switch` and `i++`; a negative entry is skipped
pub take_digit : Entry → State → State
take_digit bad s = s
take_digit space s = s
take_digit (digit ch) s =
    if s.i % 4 == 0
    then record { i = s.i + 1; done = s.done; part = ch * 2 ^ 2 % 256 }
    else if s.i % 4 == 1
    then record {
      i = s.i + 1;
      done = s.done ++ bit_or s.part (ch / 2 ^ 4) ∷ [];
      part = bit_and ch 0x0f * 2 ^ 4 % 256;
    }
    else if s.i % 4 == 2
    then record {
      i = s.i + 1;
      done = s.done ++ bit_or s.part (ch / 2 ^ 2) ∷ [];
      part = bit_and ch 0x03 * 2 ^ 6 % 256;
    }
    else record { i = s.i + 1; done = s.done ++ bit_or s.part ch ∷ []; part = 0 }

-- what follows the loop; `ch` is the byte that ended it
pub finish : ℕ → State → Option (List ℕ)
finish ch s = if ch == base64_pad && s.i % 4 == 1 then none else some s.done

-- the loop; the byte after the `n` that are left is read too
pub decode_loop : List ℕ → ℕ → State → Run (Option (List ℕ))
decode_loop [] n s = fault
decode_loop (ch ∷ current) n s =
    let rest =
      decode_loop current (n - 1) (if ch == base64_pad then s else take_digit (reverse ch) s) in
    if ch == 0 || n == 0
    then ok (finish ch s)
    else if ch == base64_pad && s.i % 4 == 1
    then ok none
    else rest

-- s_base64_decode_alloc on the memory at `str`; a result[j] not yet written is a 0 here
pub decode : Bool → List ℕ → ℕ → Run (Option (List ℕ))
decode room str str_len =
    if room then decode_loop str str_len (record { i = 0; done = []; part = 0 }) else ok none
