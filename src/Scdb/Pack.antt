-- ===== src/Scdb/Pack.antt =====
-- c/lib/scdb/utils.c: numbers of 32 bits as four bytes, and the hash of a key.
use Prim.Native.Nat.{bit_and, bit_xor}
use code_notebook.Base.{
  ℕ, ◌+◌, ◌*◌, ◌/◌, ◌%◌, ◌^◌, ◌<◌, ◌≡◌, refl, List, [], ◌∷◌, arith, length, get_or,
}
use mathlib.Core.List.{reverse}
use code_notebook.Base.Bits.{bit_and_mask}
use code_notebook.Base.Bytes.{AreBytes}
use code_notebook.Base.Xor.{bit_xor-lt}

abbrev u32 : ℕ → ℕ
u32 n = n % 2 ^ 32

-- SCDB_HASHSTART
abbrev pub hash_start : ℕ
hash_start = 5381

-- The four bytes that uint32_pack writes; the last assignment keeps the lowest 8 bits.
pub uint32_pack : ℕ → List ℕ
uint32_pack u =
    bit_and u 255
    ∷ bit_and (u / 2 ^ 8) 255
    ∷ bit_and (u / 2 ^ 8 / 2 ^ 8) 255
    ∷ u / 2 ^ 8 / 2 ^ 8 / 2 ^ 8 % 256
    ∷ []

-- uint32_unpack; s must have four bytes
pub uint32_unpack : List ℕ → ℕ
uint32_unpack s =
    let r3 = get_or s 3 0 in
    let r2 = u32 (u32 (r3 * 2 ^ 8) + get_or s 2 0) in
    let r1 = u32 (u32 (r2 * 2 ^ 8) + get_or s 1 0) in u32 (u32 (r1 * 2 ^ 8) + get_or s 0 0)

-- uint32_pack_big and uint32_unpack_big
pub uint32_pack_big : ℕ → List ℕ
uint32_pack_big u =
    u / 2 ^ 8 / 2 ^ 8 / 2 ^ 8 % 256
    ∷ bit_and (u / 2 ^ 8 / 2 ^ 8) 255
    ∷ bit_and (u / 2 ^ 8) 255
    ∷ bit_and u 255
    ∷ []

pub uint32_unpack_big : List ℕ → ℕ
uint32_unpack_big s =
    let r0 = get_or s 0 0 in
    let r1 = u32 (u32 (r0 * 2 ^ 8) + get_or s 1 0) in
    let r2 = u32 (u32 (r1 * 2 ^ 8) + get_or s 2 0) in u32 (u32 (r2 * 2 ^ 8) + get_or s 3 0)

-- scdb_hashadd
pub hashadd : ℕ → ℕ → ℕ
hashadd h c = bit_xor (u32 (h + u32 (h * 2 ^ 5))) c

pub hash_from : ℕ → List ℕ → ℕ
hash_from h [] = h
hash_from h (c ∷ buf) = hash_from (hashadd h c) buf

-- scdb_hash
pub scdb_hash : List ℕ → ℕ
unfolding hash_from
scdb_hash buf = hash_from hash_start buf

-- A number of 32 bits is read back from its four bytes, in both orders of bytes, and the two
-- orders are the reverse of each other.
pub uint32_unpack-uint32_pack :
    (u : ℕ)
    → u < 2 ^ 32
    → (uint32_unpack (uint32_pack u) ≡ u)
      × (uint32_unpack_big (uint32_pack_big u) ≡ u)
      × (uint32_pack_big u ≡ reverse (uint32_pack u))
unfolding uint32_pack uint32_unpack uint32_pack_big uint32_unpack_big
uint32_unpack-uint32_pack u h = (
  omega (arith, bit_and_mask 8 u, bit_and_mask 8 (u / 2 ^ 8), bit_and_mask 8 (u / 2 ^ 8 / 2 ^ 8)),
  omega (arith, bit_and_mask 8 u, bit_and_mask 8 (u / 2 ^ 8), bit_and_mask 8 (u / 2 ^ 8 / 2 ^ 8)),
  refl,
)

pub length-uint32_pack : (u : ℕ) → length (uint32_pack u) ≡ 4
unfolding uint32_pack
length-uint32_pack u = refl

pub pack-AreBytes : (u : ℕ) → AreBytes (uint32_pack u)
unfolding uint32_pack
pack-AreBytes u = (
  omega (arith, bit_and_mask 8 u),
  (
    omega (arith, bit_and_mask 8 (u / 2 ^ 8)),
    (omega (arith, bit_and_mask 8 (u / 2 ^ 8 / 2 ^ 8)), (omega arith, tt)),
  ),
)

hash_from-lt : (buf : List ℕ) (h : ℕ) → AreBytes buf → h < 2 ^ 32 → hash_from h buf < 2 ^ 32
unfolding hash_from hashadd
hash_from-lt [] h b lt = lt
hash_from-lt (c ∷ buf) h (b, bs) lt =
    hash_from-lt buf _ bs (bit_xor-lt 32 _ c (omega arith) (omega arith))

pub scdb_hash-lt : (buf : List ℕ) → AreBytes buf → scdb_hash buf < 2 ^ 32
unfolding scdb_hash
scdb_hash-lt buf b = hash_from-lt buf hash_start b (omega arith)

pub uint32_unpack-lt : (s : List ℕ) → uint32_unpack s < 2 ^ 32
unfolding uint32_unpack
uint32_unpack-lt s = omega arith
