-- ===== src/Scdb/Find/Ending.antt =====
-- The search ends on every database, however its tables are damaged.
use Prim.Native.Nat.{bit_and}
use code_notebook.Base.{
  ℕ, zero, suc, ◌+◌, ◌-◌, ◌*◌, ◌%◌, ◌^◌, ◌<◌, ◌≡◌, refl, ◌∙◌, List, Option, none, some, arith, ltb,
  ◌==◌, if◌then◌else◌, length, drop, length-drop, Bool-cases, inl, inr, Option-cases,
}
use code_notebook.Run.{Run, ok, Ends, ends, Ends-bind, Ends-weaken, Ends-if}
use code_notebook.Scdb.Pack.{uint32_unpack, scdb_hash, uint32_unpack-lt}
use code_notebook.Scdb.Find.{
  Scdb, Status, broken, absent, present, read, same_string, match_loop, match, begin, advance,
  verdict, look, go_on, find_loop, findnext, find,
}

match_loop-Ends :
    (fuel : ℕ) (map key : List ℕ) (pos : ℕ)
    → length key < fuel
    → Ends (λ (a : Status). Unit {0}) (match_loop fuel map key pos)
unfolding match_loop
match_loop-Ends zero map key pos h = absurd (omega arith)
match_loop-Ends (suc fuel) map key pos h =
    let n = if ltb (length key) 32 then length key else 32 in
    Ends-if (length key == 0) (λ e. ends tt)
      (λ some_left. elim (Option-cases (read map n pos)) [
        | inl outside ↦ rw outside (ends tt)
        | inr (buf, got) ↦ rw got (
            Ends-if (same_string buf key)
              (λ e. match_loop-Ends fuel map (drop n key) _ (ground (arith, length-drop n key)))
              (λ e. ends tt))
      ])

-- What a slot leaves of the search.
abbrev SameTable : Scdb → Scdb → Type 0
SameTable c c' = (c'.map ≡ c.map) × (c'.hslots ≡ c.hslots) × (c'.loop ≡ c.loop)

verdict-SameTable :
    (c : Scdb) (key : List ℕ) (pos : ℕ) (buf : List ℕ) (status : Status)
    → SameTable c (verdict c key pos buf status).1
unfolding verdict
verdict-SameTable c key pos buf broken = (refl, refl, refl)
verdict-SameTable c key pos buf absent = (refl, refl, refl)
verdict-SameTable c key pos buf present = (refl, refl, refl)

look-SameTable :
    (c : Scdb) (key : List ℕ) (pos : ℕ)
    → Ends (λ (r : Option Status × Scdb). SameTable c r.1) (look c key pos)
unfolding look match
look-SameTable c key pos = elim (Option-cases (read c.map 8 pos)) [
  | inl outside ↦ rw (outside, look) (ends (refl, refl, refl))
  | inr (buf, got) ↦
      rw (got, look)
        (Ends-if (uint32_unpack buf == length key)
          (λ e.
            Ends-bind (λ status u. ends (verdict-SameTable c key pos buf status))
              (match_loop-Ends (length key + 1) c.map key _ (omega arith)))
          (λ e. ends (refl, refl, refl)))
]

go_on-Ends :
    (c : Scdb) (again : Scdb → Run (Status × Scdb))
    → ((c' : Scdb) → SameTable c c' → Ends (λ (r : Status × Scdb). r.1.map ≡ c'.map) (again c'))
    → (r : Option Status × Scdb) → SameTable c r.1
    → Ends (λ (r : Status × Scdb). r.1.map ≡ c.map) (go_on again r)
unfolding go_on
go_on-Ends c again h (none, c') same = Ends-weaken (λ r e. e ∙ same.0) (h c' same)
go_on-Ends c again h (some answer, c') same = ends same.0

-- One slot after the other, and never more than the table has.
find_loop-Ends :
    (fuel : ℕ) (c : Scdb) (key : List ℕ)
    → c.hslots < 2 ^ 32
    → c.hslots - c.loop < fuel
    → Ends (λ (r : Status × Scdb). r.1.map ≡ c.map) (find_loop fuel c key)
unfolding find_loop advance
find_loop-Ends zero c key small enough = absurd (omega arith)
find_loop-Ends (suc fuel) c key small enough =
    let again : (c' : Scdb)
        → SameTable (advance c) c'
        → c.loop < c.hslots
        → Ends (λ (r : Status × Scdb). r.1.map ≡ c'.map) (find_loop fuel c' key) =
      λ c' (map, slots, loop) more. find_loop-Ends fuel c' key (omega arith) (omega arith) in
    Ends-if (ltb c.loop c.hslots)
      (λ more. elim (Option-cases (read c.map 8 c.kpos)) [
        | inl outside ↦ rw outside (ends refl)
        | inr (buf, got) ↦ rw got (
            Ends-if (uint32_unpack (drop 4 buf) == 0) (λ e. ends refl)
              (λ e. Ends-bind (go_on-Ends (advance c) _ (λ c' same. again c' same (ground arith))) (
                Ends-if (uint32_unpack buf == c.khash) (λ e. look-SameTable (advance c) key _)
                  (λ e. ends (refl, refl, refl)))))
      ])
      (λ e. ends refl)

-- A search that was begun.
abbrev Begun : Scdb → Option Status × Scdb → Type 0
Begun c r = (r.1.map ≡ c.map) × (r.0 ≡ none → r.1.hslots < 2 ^ 32)

begin-Begun : (c : Scdb) (key : List ℕ) → Begun c (begin c key)
unfolding begin
begin-Begun c key =
    elim (Option-cases (read c.map 8 (bit_and (scdb_hash key * 2 ^ 3 % 2 ^ 32) 2047))) [
      | inl outside ↦ rw (outside, begin) (refl, λ e. absurd cc)
      | inr (buf, got) ↦ elim (Bool-cases (uint32_unpack (drop 4 buf) == 0)) [
        | inl empty ↦ rw (got, begin, empty) (refl, λ e. absurd cc)
        | inr table ↦ rw (got, begin, table) (refl, λ e. uint32_unpack-lt (drop 4 buf))
      ]
    ]

Begun-Ends :
    (c : Scdb) (key : List ℕ) (r : Option Status × Scdb)
    → Begun c r
    → Ends
        (λ (r : Status × Scdb). r.1.map ≡ c.map)
        (elim r.0 [ none ↦ find_loop (r.1.hslots + 1) r.1 key | some answer ↦ ok (answer, r.1) ])
Begun-Ends c key (none, c') (map, small) =
    Ends-weaken (λ r e. e ∙ map) (find_loop-Ends (c'.hslots + 1) c' key (small refl) (omega arith))
Begun-Ends c key (some answer, c') (map, small) = ends map

-- scdb_find returns on every mapped database and every key, however the tables are damaged, and
-- leaves the map as it was: one turn more than the table has slots is fuel enough for its loop,
-- and one more than the bytes of the key for the comparison of a key.
pub find-Ends :
    (c : Scdb) (key : List ℕ) → Ends (λ (r : Status × Scdb). r.1.map ≡ c.map) (find c key)
unfolding find findnext
find-Ends c key =
    Begun-Ends (record c { loop = 0 }) key (begin (record c { loop = 0 }) key)
      (begin-Begun (record c { loop = 0 }) key)
