-- ===== src/Scdb/Make/Records.antt =====
-- scdb_make_add: the bytes of a record, and the cell that remembers where it starts.
use code_notebook.Base.{
  ℕ, ◌+◌, ◌%◌, ◌^◌, ◌≤◌, ◌<◌, ◌≡◌, refl, sym, ap, ◌∙◌, Bool, true, false, inl, inr, List, [], ◌∷◌,
  ◌++◌, Option, none, some, arith, ltb, leb, ◌==◌, if◌then◌else◌, length, length-append, Bool-cases,
}
use mathlib.Core.List.{append_assoc, append-nil}
use code_notebook.Run.{Run, ok, Ends, ends, Ends-bind, Ends-weaken}
use code_notebook.Scdb.Pack.{uint32_pack, length-uint32_pack}
use code_notebook.Scdb.Buffer.{Buffer}
use code_notebook.Scdb.Buffer.Writes.{credit, breaks, held, IsValid, Put, put, cut, putalign-Put}
use code_notebook.Scdb.Make.{
  Hp, Make, node_size, posplus, with_free_cell, store_hp, addend, and_then, addbegin,
}

-- A record of the file.
abbrev pub record_bytes : List ℕ → List ℕ → List ℕ
record_bytes key value = ((uint32_pack (length key) ++ uint32_pack (length value)) ++ key) ++ value

-- The cells of all nodes, the latest last.
unfoldable pub entries : List (List Hp) → List Hp
entries [] = []
entries (node ∷ next) = entries next ++ node

-- No node has more cells than it has room for.
pub data FitNodes : List (List Hp) → Type 0 where
  no_node : FitNodes []
  node_fits :
      (node : List Hp) (next : List (List Hp))
      → length node ≤ node_size
      → FitNodes next
      → FitNodes (node ∷ next)

module _ (s : Buffer) (a c : List ℕ) where
  then_put :
      (s' : Buffer) (result : ℕ × Buffer)
      → held s' ≡ held s ++ a
      → credit s.answers + s'.p ≤ credit s'.answers + s.p + length a
      → (breaks s'.answers ≡ true → breaks s.answers ≡ true)
      → Put s' c result
      → Put s (a ++ c) result
  then_put s' result same spent kept (put t valid text spent' kept') =
      put t valid (text ∙ ap (λ (b : List ℕ). b ++ c) same ∙ append_assoc (held s) a c)
        (omega (arith, length-append a c)) (λ e. kept (kept' e))
  then_put s' result same spent kept (cut t rest bad split) =
      cut t rest (kept bad)
        (sym (append_assoc (held s) a c) ∙ ap (λ (b : List ℕ). b ++ c) (sym same) ∙ split)

  -- One call after another.
  pub and_then-Put :
      {first : Run (ℕ × Buffer)} {next : Buffer → Run (ℕ × Buffer)}
      → Ends (Put s a) first
      → ((s' : Buffer)
          → IsValid s'
          → credit s.answers + s'.p ≤ credit s'.answers + s.p + length a
          → Ends (Put s' c) (next s'))
      → Ends (Put s (a ++ c)) (and_then first next)
  unfolding and_then
  and_then-Put {first} {next} h rest = Ends-bind go h
    where
      go :
          (result : ℕ × Buffer)
          → Put s a result
          → Ends (Put s (a ++ c)) (if result.0 == 0 then next result.1 else ok (result.0, result.1))
      go result (put s' valid text spent kept) =
          Ends-weaken (λ r p. then_put s' r text spent kept p) (rest s' valid spent)
      go result (cut s' left bad split) = ends (
          cut s' (left ++ c) bad (
            sym (append_assoc (held s) a c)
            ∙ ap (λ (b : List ℕ). b ++ c) split
            ∙ append_assoc s'.sent left c))

pub addbegin-Put :
    (b : Buffer) (keylen datalen : ℕ)
    → IsValid b
    → keylen < 2 ^ 32
    → datalen < 2 ^ 32
    → b.p + 8 ≤ credit b.answers
    → Ends (Put b (uint32_pack keylen ++ uint32_pack datalen)) (addbegin b keylen datalen)
unfolding addbegin
addbegin-Put b keylen datalen valid k d patience =
    let short_key : ltb 0xffffffff keylen ≡ false = ground arith in
    let short_data : ltb 0xffffffff datalen ≡ false = ground arith in
    rw (short_key, short_data)
      (putalign-Put b (uint32_pack keylen ++ uint32_pack datalen) valid (
        omega (
          arith,
          length-append (uint32_pack keylen) (uint32_pack datalen),
          length-uint32_pack keylen,
          length-uint32_pack datalen,
        )))

-- The list of nodes before a cell is written.
data FreeCell (room : Bool) (head : List (List Hp)) : Option (List (List Hp)) → Type 0 where
  cell :
      (node : List Hp) (next : List (List Hp))
      → length node < node_size
      → FitNodes next
      → entries next ++ node ≡ entries head
      → FreeCell room head (some (node ∷ next))
  no_cell : room ≡ false → FreeCell room head none

with_free_cell-FreeCell :
    (room : Bool) (head : List (List Hp))
    → FitNodes head
    → FreeCell room head (with_free_cell room head)
unfolding with_free_cell entries
with_free_cell-FreeCell true [] h = cell [] [] (omega arith) no_node refl
with_free_cell-FreeCell false [] h = no_cell refl
with_free_cell-FreeCell room (node ∷ next) (node_fits _ _ fits rest) =
    elim (Bool-cases (leb node_size (length node))) [
      | inl full ↦ rw full (fresh room)
      | inr free ↦ rw free (cell node next (ground arith) rest refl)
    ]
  where
    fresh :
        (room : Bool) → FreeCell room (node ∷ next) (if room then some ([] ∷ node ∷ next) else none)
    fresh true = cell [] (node ∷ next) (omega arith) (node_fits node next fits rest) (append-nil _)
    fresh false = no_cell refl

pub posplus-ok :
    (c : Make) (len : ℕ)
    → c.pos + len < 2 ^ 32
    → posplus c len ≡ (0, record c { pos = c.pos + len })
unfolding posplus
posplus-ok c len h =
    let no_wrap : (c.pos + len) % 2 ^ 32 ≡ c.pos + len = omega arith in
    let no_less : ltb (c.pos + len) len ≡ false = ground arith in rw (no_wrap, no_less)

-- The answers of scdb_make_addend.
pub data Ended (room : Bool) (c : Make) (total h : ℕ) : ℕ × Make → Type 0 where
  ended :
      (c' : Make)
      → FitNodes c'.head
      → entries c'.head ≡ entries c.head ++ record { h = h; p = c.pos } ∷ []
      → c'.pos ≡ c.pos + 8 + total
      → c'.b ≡ c.b
      → Ended room c total h (0, c')
  no_memory : room ≡ false → Ended room c total h (1, c)

cells-Ended :
    (room : Bool) (c : Make) (keylen datalen h : ℕ) (head : Option (List (List Hp)))
    → c.pos + 8 + keylen + datalen < 2 ^ 32
    → FreeCell room c.head head
    → with_free_cell room c.head ≡ head
    → Ends (Ended room c (keylen + datalen) h) (addend room c keylen datalen h)
unfolding addend store_hp entries
cells-Ended room c keylen datalen h head small (no_cell r) e = rw (e, addend) (ends (no_memory r))
cells-Ended room c keylen datalen h head small (cell node next free fits same) e =
    let hp : Hp = record { h = h; p = c.pos } in
    let room_left : ltb (length node) node_size ≡ true = ground arith in
    let c0 : Make = record c {
      head = (node ++ hp ∷ []) ∷ next;
      numentries = (c.numentries + 1) % 2 ^ 32;
    } in
    rw
      (
        e,
        addend,
        store_hp,
        room_left,
        posplus-ok c0 8 (omega arith),
        posplus-ok (record c0 { pos = c.pos + 8 }) keylen (omega arith),
        posplus-ok (record c0 { pos = c.pos + 8 + keylen }) datalen (omega arith),
      )
      (ends (
        ended _
          (node_fits (node ++ hp ∷ []) next (omega (arith, length-append node (hp ∷ []))) fits)
          (sym (append_assoc (entries next) node (hp ∷ []))
            ∙ ap (λ (a : List Hp). a ++ hp ∷ []) same)
          (omega arith) refl))

pub addend-Ended :
    (room : Bool) (c : Make) (keylen datalen h : ℕ)
    → FitNodes c.head
    → c.pos + 8 + keylen + datalen < 2 ^ 32
    → Ends (Ended room c (keylen + datalen) h) (addend room c keylen datalen h)
addend-Ended room c keylen datalen h fits small =
    cells-Ended room c keylen datalen h (with_free_cell room c.head) small
      (with_free_cell-FreeCell room c.head fits) refl
