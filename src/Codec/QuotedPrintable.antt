-- ===== src/Codec/QuotedPrintable.antt =====
-- c/src/code/quote_print.c: quoted-printable text. The input is the list of its `str_len` bytes,
-- which a zero follows, and the pointer into it is its tail. The decoder counts what is left in
-- `i`, which takes the low 32 bits of the length. What an allocation answers is an argument, and a
-- write behind the block that was asked for is a fault.
pub mod Bounds
pub mod Room
pub mod Digits
pub mod RoundTrip
mod Tests
use Prim.Native.Nat.{bit_and, bit_or}
use code_notebook.Base.{
  ℕ, zero, suc, ◌+◌, ◌-◌, ◌*◌, ◌/◌, ◌%◌, ◌^◌, Bool, ◌&&◌, ◌||◌, List, [], ◌∷◌, ◌++◌, Option, none,
  some, ltb, leb, ◌==◌, if◌then◌else◌, length, get_or, take,
}
use code_notebook.Run.{Run, ok, fault, out_of_fuel, ◌>>=◌}

-- S_QPRINT_MAXL
abbrev pub max_line : ℕ
max_line = 75

abbrev pub cr : ℕ
cr = 13

abbrev pub lf : ℕ
lf = 10

abbrev pub equals : ℕ
equals = 61

-- hexval_tbl: the value of a digit, 16 for a line break, 32 for a blank, 64 for any other byte
pub hexval_table : List ℕ
hexval_table =
    64 ∷ 64 ∷ 64 ∷ 64 ∷ 64 ∷ 64 ∷ 64 ∷ 64 ∷ 64 ∷ 32 ∷ 16 ∷ 64 ∷ 64 ∷ 16 ∷ 64 ∷ 64 ∷ 64 ∷ 64 ∷ 64
    ∷ 64 ∷ 64 ∷ 64 ∷ 64 ∷ 64 ∷ 64 ∷ 64 ∷ 64 ∷ 64 ∷ 64 ∷ 64 ∷ 64 ∷ 64 ∷ 32 ∷ 64 ∷ 64 ∷ 64 ∷ 64 ∷ 64
    ∷ 64 ∷ 64 ∷ 64 ∷ 64 ∷ 64 ∷ 64 ∷ 64 ∷ 64 ∷ 64 ∷ 64 ∷ 0 ∷ 1 ∷ 2 ∷ 3 ∷ 4 ∷ 5 ∷ 6 ∷ 7 ∷ 8 ∷ 9 ∷ 64
    ∷ 64 ∷ 64 ∷ 64 ∷ 64 ∷ 64 ∷ 64 ∷ 10 ∷ 11 ∷ 12 ∷ 13 ∷ 14 ∷ 15 ∷ 64 ∷ 64 ∷ 64 ∷ 64 ∷ 64 ∷ 64 ∷ 64
    ∷ 64 ∷ 64 ∷ 64 ∷ 64 ∷ 64 ∷ 64 ∷ 64 ∷ 64 ∷ 64 ∷ 64 ∷ 64 ∷ 64 ∷ 64 ∷ 64 ∷ 64 ∷ 64 ∷ 64 ∷ 64 ∷ 64
    ∷ 10 ∷ 11 ∷ 12 ∷ 13 ∷ 14 ∷ 15 ∷ 64 ∷ 64 ∷ 64 ∷ 64 ∷ 64 ∷ 64 ∷ 64 ∷ 64 ∷ 64 ∷ 64 ∷ 64 ∷ 64 ∷ 64
    ∷ 64 ∷ 64 ∷ 64 ∷ 64 ∷ 64 ∷ 64 ∷ 64 ∷ 64 ∷ 64 ∷ 64 ∷ 64 ∷ 64 ∷ 64 ∷ 64 ∷ 64 ∷ 64 ∷ 64 ∷ 64 ∷ 64
    ∷ 64 ∷ 64 ∷ 64 ∷ 64 ∷ 64 ∷ 64 ∷ 64 ∷ 64 ∷ 64 ∷ 64 ∷ 64 ∷ 64 ∷ 64 ∷ 64 ∷ 64 ∷ 64 ∷ 64 ∷ 64 ∷ 64
    ∷ 64 ∷ 64 ∷ 64 ∷ 64 ∷ 64 ∷ 64 ∷ 64 ∷ 64 ∷ 64 ∷ 64 ∷ 64 ∷ 64 ∷ 64 ∷ 64 ∷ 64 ∷ 64 ∷ 64 ∷ 64 ∷ 64
    ∷ 64 ∷ 64 ∷ 64 ∷ 64 ∷ 64 ∷ 64 ∷ 64 ∷ 64 ∷ 64 ∷ 64 ∷ 64 ∷ 64 ∷ 64 ∷ 64 ∷ 64 ∷ 64 ∷ 64 ∷ 64 ∷ 64
    ∷ 64 ∷ 64 ∷ 64 ∷ 64 ∷ 64 ∷ 64 ∷ 64 ∷ 64 ∷ 64 ∷ 64 ∷ 64 ∷ 64 ∷ 64 ∷ 64 ∷ 64 ∷ 64 ∷ 64 ∷ 64 ∷ 64
    ∷ 64 ∷ 64 ∷ 64 ∷ 64 ∷ 64 ∷ 64 ∷ 64 ∷ 64 ∷ 64 ∷ 64 ∷ 64 ∷ 64 ∷ 64 ∷ 64 ∷ 64 ∷ 64 ∷ 64 ∷ 64 ∷ 64
    ∷ 64 ∷ 64 ∷ 64 ∷ 64 ∷ 64 ∷ 64 ∷ 64 ∷ 64 ∷ 64 ∷ 64 ∷ 64 ∷ 64 ∷ 64 ∷ 64 ∷ 64 ∷ 64 ∷ 64 ∷ 64 ∷ 64
    ∷ 64 ∷ 64 ∷ 64 ∷ 64 ∷ 64 ∷ 64 ∷ 64 ∷ []

abbrev pub hexval : ℕ → ℕ
hexval b = get_or hexval_table b 64

-- "0123456789ABCDEF"
pub hex : List ℕ
hex = 48 ∷ 49 ∷ 50 ∷ 51 ∷ 52 ∷ 53 ∷ 54 ∷ 55 ∷ 56 ∷ 57 ∷ 65 ∷ 66 ∷ 67 ∷ 68 ∷ 69 ∷ 70 ∷ []

-- iscntrl of the C locale
pub iscntrl : ℕ → Bool
iscntrl c = ltb c 32 || c == 0x7f

-- The bytes that are written as a code; `next` is the byte behind `c`.
pub needs_code : ℕ → ℕ → Bool
unfolding iscntrl
needs_code c next = iscntrl c || c == 0x7f || leb 0x80 c || c == equals || (c == 32 && next == cr)

-- The break before a code; `lp` has been moved on by the code already.
pub breaks_before : ℕ → ℕ → Bool
breaks_before c lp =
    (ltb max_line lp && leb c 0x7f)
    || (ltb 0x7f c && leb c 0xdf && ltb max_line (lp + 3))
    || (ltb 0xdf c && leb c 0xef && ltb max_line (lp + 6))
    || (ltb 0xef c && leb c 0xf4 && ltb max_line (lp + 9))

pub code : ℕ → List ℕ
unfolding hex
code c = equals ∷ get_or hex (c / 2 ^ 4) 0 ∷ get_or hex (bit_and c 0xf) 0 ∷ []

abbrev pub soft_break : List ℕ
soft_break = equals ∷ cr ∷ lf ∷ []

-- One byte that begins no line break: `lp` afterwards, and what is written.
pub write_byte : ℕ → ℕ → ℕ → ℕ × List ℕ
unfolding needs_code breaks_before code
write_byte lp c next =
    if needs_code c next
    then if breaks_before c (lp + 3) then (3, soft_break ++ code c) else (lp + 3, code c)
    else if ltb max_line (lp + 1)
    then (1, soft_break ++ c ∷ [])
    else (lp + 1, c ∷ [])

-- the loop of s_quoted_printable_encode_alloc
pub encode_loop : ℕ → List ℕ → List ℕ
encode_loop lp [] = []
encode_loop lp (c ∷ []) = (write_byte lp c 0).1
encode_loop lp (c ∷ d ∷ str) =
    let broken = cr ∷ lf ∷ encode_loop 0 str in
    let (lp', out) = write_byte lp c d in
    let rest = out ++ encode_loop lp' (d ∷ str) in if c == cr && d == lf then broken else rest

-- The bytes that are asked of malloc.
abbrev pub block_size : ℕ → ℕ
block_size len = 3 * (len + (3 * len / (max_line - 9) + 1))

-- s_quoted_printable_encode_alloc; the answers are those of malloc and of realloc
pub encode : Bool → Bool → List ℕ → Run (Option (List ℕ))
encode room shrunk str =
    let out = encode_loop 0 str in
    if room
    then if ltb (block_size (length str)) (length out + 1)
      then fault
      else ok (if shrunk then some out else none)
    else ok none

-- the first loop of s_quoted_printable_decode_alloc, which leaves buf_size
pub estimate : List ℕ → ℕ → ℕ
estimate [] buf_size = buf_size
estimate (b ∷ []) buf_size = buf_size
estimate (b ∷ d ∷ str) buf_size =
    let coded = estimate str (buf_size - 2) in
    let plain = estimate (d ∷ str) buf_size in
    if b == 0 then buf_size else if b == equals then coded else plain

-- *(p2++) = b, where the block has buf_size + 1 bytes
pub store : ℕ → List ℕ → ℕ → Run (List ℕ)
store buf_size out b = if leb (length out) buf_size then ok (out ++ b ∷ []) else fault

-- The loop over blanks behind a `=`: the byte where it stops and what follows it, or a failure.
pub skip_blanks : ℕ → List ℕ → Option (ℕ × List ℕ)
skip_blanks h [] = if hexval h == 32 then none else some (h, [])
skip_blanks h (d ∷ str) =
    let next = skip_blanks d str in
    let moved = if hexval d == 64 then none else next in
    if hexval h == 32 then moved else some (h, d ∷ str)

-- The end of a soft break: the byte `h` and, behind a carriage return, a line feed.
pub after_break : ℕ → List ℕ → List ℕ
after_break h [] = []
after_break h (d ∷ str) = if h == cr && d == lf then str else d ∷ str

-- What follows a `=`: nothing to read, a byte in two digits, a soft break, or a failure.
pub data Coded : Type 0 where
  stop bad : Coded
  byte : ℕ → List ℕ → Coded
  soft : List ℕ → Coded

pub second_digit : ℕ → List ℕ → Coded
second_digit h_nbl [] = bad
second_digit h_nbl (l ∷ str) =
    if leb 16 (hexval l) then bad else byte (bit_or (h_nbl * 2 ^ 4) (hexval l) % 256) str

pub soft_end : Option (ℕ × List ℕ) → Coded
soft_end none = bad
soft_end (some (h, str)) = soft (after_break h str)

pub read_code : List ℕ → Coded
unfolding second_digit soft_end skip_blanks after_break
read_code [] = stop
read_code (h ∷ str) =
    if h == 0
    then stop
    else if ltb (hexval h) 16
    then second_digit (hexval h) str
    else if ltb (hexval h) 64
    then soft_end (skip_blanks h str)
    else bad

-- The second loop, with one unit of fuel for each turn; `again` is the loop.
pub after_code :
    (List ℕ → List ℕ → Run (Option (List ℕ))) → ℕ → List ℕ → Coded → Run (Option (List ℕ))
after_code again buf_size out stop = ok (some out)
after_code again buf_size out bad = ok none
after_code again buf_size out (byte b str) = store buf_size out b >>= λ out'. again str out'
after_code again buf_size out (soft str) = again str out

pub decode_loop : ℕ → ℕ → List ℕ → List ℕ → Run (Option (List ℕ))
decode_loop zero buf_size str out = out_of_fuel
decode_loop (suc fuel) buf_size [] out = ok (some out)
decode_loop (suc fuel) buf_size (b ∷ str) out =
    let coded =
      after_code (λ later out'. decode_loop fuel buf_size later out') buf_size out
        (read_code str) in
    let plain = store buf_size out b >>= λ out'. decode_loop fuel buf_size str out' in
    if b == 0 then ok (some out) else if b == equals then coded else plain

-- *p2 = '\0'
pub end_text : ℕ → Option (List ℕ) → Run (Option (List ℕ))
end_text buf_size none = ok none
end_text buf_size (some out) = if leb (length out) buf_size then ok (some out) else fault

-- s_quoted_printable_decode_alloc; the answer is that of malloc
pub decode : Bool → List ℕ → Run (Option (List ℕ))
unfolding decode_loop after_code store end_text
decode room str =
    let i = length str % 2 ^ 32 in
    let buf_size = estimate (take i str) (length str) in
    let decoded = decode_loop (i + 1) buf_size (take i str) [] >>= λ r. end_text buf_size r in
    if room then decoded else ok none
