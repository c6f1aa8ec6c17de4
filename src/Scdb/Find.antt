-- ===== src/Scdb/Find.antt =====
-- c/lib/scdb/scdb.c: the search in a database that is mapped; `map` is its bytes, and `size` their
-- number, which is below 2 ^ 32. A database that could not be mapped is not modelled.
pub mod Ending
use Prim.Native.Nat.{bit_and}
use code_notebook.Base.{
  ℕ, zero, suc, ◌+◌, ◌-◌, ◌*◌, ◌/◌, ◌%◌, ◌^◌, Bool, true, false, ◌&&◌, ◌||◌, List, [], ◌∷◌, Option,
  none, some, ltb, ◌==◌, if◌then◌else◌, length, take, drop,
}
use code_notebook.Run.{Run, ok, out_of_fuel, ◌>>=◌}
use code_notebook.Scdb.Pack.{uint32_unpack, scdb_hash}

-- struct scdb
pub record Scdb : Type 0 where
  pub map : List ℕ
  pub loop : ℕ
  pub khash : ℕ
  pub kpos : ℕ
  pub hpos : ℕ
  pub hslots : ℕ
  pub dpos : ℕ
  pub dlen : ℕ

abbrev u32 : ℕ → ℕ
u32 n = n % 2 ^ 32

-- The numbers returned: -1, 0 and 1.
pub data Status : Type 0 where
  broken absent present : Status

-- scdb_read of a mapped database; `none` is -1
pub read : List ℕ → ℕ → ℕ → Option (List ℕ)
read map len pos =
    if ltb (length map) pos || ltb (length map - pos) len
    then none
    else some (take len (drop pos map))

-- !strncmp(buf, key, n), where n is the length of buf: a zero in both ends the comparison
pub same_string : List ℕ → List ℕ → Bool
same_string [] key = true
same_string (b ∷ buf) [] = false
same_string (b ∷ buf) (c ∷ key) = b == c && (b == 0 || same_string buf key)

-- match, with one unit of fuel for each turn of the loop
pub match_loop : ℕ → List ℕ → List ℕ → ℕ → Run Status
match_loop zero map key pos = out_of_fuel
match_loop (suc fuel) map key pos =
    let n = if ltb (length key) 32 then length key else 32 in
    let rest = match_loop fuel map (drop n key) (u32 (pos + n)) in
    let turn : Run Status = elim (read map n pos) [
      | none ↦ ok broken
      | some buf ↦ if same_string buf key then rest else ok absent
    ] in
    if length key == 0 then ok present else turn

pub match : List ℕ → List ℕ → ℕ → Run Status
unfolding match_loop
match map key pos = match_loop (length key + 1) map key pos

-- The head of scdb_findnext for a new key: the status when it returns, and the search.
pub begin : Scdb → List ℕ → Option Status × Scdb
begin c key =
    let u = scdb_hash key in
    elim (read c.map 8 (bit_and (u32 (u * 2 ^ 3)) 2047)) [
      | none ↦ (some broken, c)
      | some buf ↦
          let hslots = uint32_unpack (drop 4 buf) in
          let hpos = uint32_unpack buf in
          if hslots == 0 then (some absent, record c { hslots = hslots }) else (
            none,
            record c {
              hslots = hslots;
              hpos = hpos;
              khash = u;
              kpos = u32 (hpos + u32 (u / 2 ^ 8 % hslots * 2 ^ 3));
            },
          )
    ]

-- The search behind one slot of the table.
pub advance : Scdb → Scdb
advance c =
    let kpos = u32 (c.kpos + 8) in
    record c {
      loop = u32 (c.loop + 1);
      kpos = if kpos == u32 (c.hpos + u32 (c.hslots * 2 ^ 3)) then c.hpos else kpos;
    }

-- The switch on the answer of match, in a slot whose record begins with `buf`.
pub verdict : Scdb → List ℕ → ℕ → List ℕ → Status → Option Status × Scdb
verdict c key pos buf broken = (some broken, c)
verdict c key pos buf absent = (none, c)
verdict c key pos buf present = (
  some present,
  record c { dlen = uint32_unpack (drop 4 buf); dpos = u32 (pos + 8 + length key) },
)

-- A slot with the hash of the key: the status when scdb_findnext returns, and the search.
pub look : Scdb → List ℕ → ℕ → Run (Option Status × Scdb)
unfolding verdict
look c key pos = elim (read c.map 8 pos) [
  | none ↦ ok (some broken, c)
  | some buf ↦
      let compared =
        match c.map key (u32 (pos + 8)) >>= λ status. ok (verdict c key pos buf status) in
      if uint32_unpack buf == length key then compared else ok (none, c)
]

-- The loop goes on until a slot decides.
pub go_on : (Scdb → Run (Status × Scdb)) → Option Status × Scdb → Run (Status × Scdb)
go_on again (none, c) = again c
go_on again (some answer, c) = ok (answer, c)

-- the loop of scdb_findnext, with one unit of fuel for each slot
pub find_loop : ℕ → Scdb → List ℕ → Run (Status × Scdb)
find_loop zero c key = out_of_fuel
find_loop (suc fuel) c key =
    let turn : Run (Status × Scdb) = elim (read c.map 8 c.kpos) [
      | none ↦ ok (broken, c)
      | some buf ↦
          let pos = uint32_unpack (drop 4 buf) in
          let c' = advance c in
          let looked : Run (Option Status × Scdb) =
            if uint32_unpack buf == c.khash then look c' key pos else ok (none, c') in
          let next = looked >>= λ r. go_on (λ later. find_loop fuel later key) r in
          if pos == 0 then ok (absent, c) else next
    ] in
    if ltb c.loop c.hslots then turn else ok (absent, c)

-- scdb_findnext
pub findnext : Scdb → List ℕ → Run (Status × Scdb)
unfolding find_loop look advance begin
findnext c key =
    let (status, c') = if c.loop == 0 then begin c key else (none, c) in
    elim status [ none ↦ find_loop (c'.hslots + 1) c' key | some answer ↦ ok (answer, c') ]

-- scdb_findstart and scdb_find
pub find : Scdb → List ℕ → Run (Status × Scdb)
find c key = findnext (record c { loop = 0 }) key
