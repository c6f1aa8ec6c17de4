-- ===== src/Scdb/Make/Add.antt =====
-- scdb_make_add as a whole.
use code_notebook.Base.{
  ℕ, ◌+◌, ◌^◌, ◌≤◌, ◌<◌, ◌≡◌, sym, ap, ◌∙◌, Bool, true, false, ◌⊎◌, inl, inr, List, [], ◌∷◌, ◌++◌,
  arith, ◌==◌, if◌then◌else◌, length, length-append,
}
use mathlib.Core.Path.{subst}
use code_notebook.Run.{ok, Ends, ends, Ends-bind, Ends-weaken}
use code_notebook.Scdb.Pack.{uint32_pack, scdb_hash, length-uint32_pack}
use code_notebook.Scdb.Buffer.{Buffer, putalign}
use code_notebook.Scdb.Buffer.Writes.{credit, breaks, held, IsValid, Put, put, cut, putalign-Put}
use code_notebook.Scdb.Make.{Make, addend, add, and_then, addbegin}
use code_notebook.Scdb.Make.Records.{
  record_bytes, entries, FitNodes, and_then-Put, addbegin-Put, Ended, ended, no_memory,
  addend-Ended,
}

-- A database that is being made: `pos` is where the next record will stand in the file.
pub record IsMaking (c : Make) : Type 0 where
  pub buffer : IsValid c.b
  pub nodes : FitNodes c.head
  pub place : c.pos ≡ 2048 + length (held c.b)

-- The answers of scdb_make_add.
pub data Added (room : Bool) (c : Make) (key value : List ℕ) : ℕ × Make → Type 0 where
  added :
      (c' : Make)
      → IsMaking c'
      → held c'.b ≡ held c.b ++ record_bytes key value
      → entries c'.head
        ≡ entries c.head ++ record { h = scdb_hash key; p = 2048 + length (held c.b) } ∷ []
      → Added room c key value (0, c')
  not_added :
      (c' : Make) → (breaks c.b.answers ≡ true) ⊎ (room ≡ false) → Added room c key value (1, c')

length-record_bytes :
    (key value : List ℕ) → length (record_bytes key value) ≡ 8 + (length key + length value)
length-record_bytes key value =
    let k = uint32_pack (length key) in
    let v = uint32_pack (length value) in
    omega (
      arith,
      length-append ((k ++ v) ++ key) value,
      length-append (k ++ v) key,
      length-append k v,
      length-uint32_pack (length key),
      length-uint32_pack (length value),
    )

record-Put :
    (b : Buffer) (key value : List ℕ)
    → IsValid b
    → length key < 2 ^ 32
    → length value < 2 ^ 32
    → b.p + 8 + length key + length value ≤ credit b.answers
    → Ends (Put b (record_bytes key value)) (
        and_then
          (and_then (addbegin b (length key) (length value)) (λ b. putalign b key))
          (λ b. putalign b value))
record-Put b key value valid k v patience =
    let head = uint32_pack (length key) ++ uint32_pack (length value) in
    let eight : length head ≡ 8 = omega (
      arith,
      length-append (uint32_pack (length key)) (uint32_pack (length value)),
      length-uint32_pack (length key),
      length-uint32_pack (length value),
    ) in
    and_then-Put b (head ++ key) value
      (and_then-Put b head key (addbegin-Put b (length key) (length value) valid k v (omega arith))
        (λ b' ready spent. putalign-Put b' key ready (omega (arith, eight))))
      (λ b' ready spent. putalign-Put b' value ready (omega (arith, eight, length-append head key)))

module _ (room : Bool) (c : Make) (key value : List ℕ) (making : IsMaking c) where
  finish-Added :
      (b : Buffer)
      → IsValid b
      → held b ≡ held c.b ++ record_bytes key value
      → (result : ℕ × Make)
      → Ended room (record c { b = b }) (length key + length value) (scdb_hash key) result
      → Added room c key value result
  finish-Added b valid text result (ended c' fits cells pos same) =
      added c'
        (record {
          buffer = subst IsValid (sym same) valid;
          nodes = fits;
          place =
              pos
              ∙ omega (
                arith,
                making.place,
                ap length (ap held same ∙ text),
                length-append (held c.b) (record_bytes key value),
                length-record_bytes key value,
              );
        })
        (ap held same ∙ text)
        (cells
          ∙ ap (λ (p : ℕ). entries c.head ++ record { h = scdb_hash key; p = p } ∷ []) making.place)
  finish-Added b valid text result (no_memory r) = not_added _ (inr r)

  after_record :
      c.pos + 8 + length key + length value < 2 ^ 32
      → (result : ℕ × Buffer) → Put c.b (record_bytes key value) result
      → Ends (Added room c key value) (
          if result.0 == 0
          then addend room (record c { b = result.1 }) (length key) (length value) (scdb_hash key)
          else ok (result.0, record c { b = result.1 }))
  after_record small result (put b valid text spent kept) =
      Ends-weaken (finish-Added b valid text) (
        addend-Ended room (record c { b = b }) (length key) (length value) (scdb_hash key)
          making.nodes small)
  after_record small result (cut b rest bad split) = ends (not_added _ (inl bad))

  -- scdb_make_add, on a database that is being made whose file stays below 2 ^ 32 bytes, when the
  -- calls of `op` are not interrupted for ever, ends inside its blocks. With 0, the lengths, the
  -- key and the value stand behind the records before it, its hash is listed last with the place
  -- in the file where it starts, and the next record's place is right; -1 comes only of a failed
  -- write or a refused node.
  pub add-Added :
      c.pos + 8 + length key + length value < 2 ^ 32
      → c.b.p + 8 + length key + length value ≤ credit c.b.answers
      → Ends (Added room c key value) (add room c key value)
  unfolding add
  add-Added small patience =
      Ends-bind (after_record small)
        (record-Put c.b key value making.buffer (omega arith) (omega arith) patience)
