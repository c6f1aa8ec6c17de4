-- ===== src/Scdb/Index/Finish.antt =====
-- scdb_make_finish as a whole.
use mathlib.Core.Path.{subst}
use code_notebook.Base.{
  ℕ, zero, suc, ◌+◌, ◌*◌, ◌≤◌, ◌≡◌, refl, sym, ap, ◌∙◌, Bool, true, false, ◌&&◌, List, [], ◌∷◌,
  ◌++◌, arith, ◌==◌, if◌then◌else◌, length, take, length-append,
}
use code_notebook.Run.{ok, Ends, ends, Ends-bind, ◌>>=◌}
use code_notebook.Scdb.Pack.{uint32_pack, length-uint32_pack}
use code_notebook.Scdb.Buffer.{Buffer, putflush}
use code_notebook.Scdb.Buffer.Writes.{
  credit, breaks, held, Flushed, flushed, unflushed, flush-Flushed,
}
use code_notebook.Scdb.Buffer.Handing.{Handed, handed, not_handed, putflush-Handed}
use code_notebook.Scdb.Make.{Hp, Make}
use code_notebook.Scdb.Index.{Indexed, Finished, failed, write_head}
use code_notebook.Scdb.Index.Split.{in_slot}
use code_notebook.Scdb.Index.Written.{
  Tables, no_tables, table, Tabled, tabled, not_tabled, room_for, table_bytes, length-table_bytes,
}

-- The entries of the slots from `i` on.
unfoldable pub slots_from : ℕ → ℕ → List Hp → List (List Hp)
slots_from i zero es = []
slots_from i (suc n) es = in_slot i es ∷ slots_from (suc i) n es

-- Eight bytes for each table.
length-final :
    (pos : ℕ) (groups : List (List Hp)) (bytes final : List ℕ)
    → Tables pos groups bytes final
    → length final ≡ 8 * length groups
length-final pos groups bytes final (no_tables _) = refl
length-final pos groups bytes final (table _ hps hash groups' bytes' final' made cells rest) =
    omega (
      arith,
      length-append (uint32_pack pos ++ uint32_pack (2 * length hps)) final',
      length-append (uint32_pack pos) (uint32_pack (2 * length hps)),
      length-uint32_pack pos,
      length-uint32_pack (2 * length hps),
      length-final _ groups' bytes' final' rest,
    )

-- And 16 for each entry in the tables themselves.
length-Tables :
    (pos : ℕ) (groups : List (List Hp)) (bytes final : List ℕ)
    → Tables pos groups bytes final
    → length bytes ≡ room_for groups
length-Tables pos groups bytes final (no_tables _) = refl
length-Tables pos groups bytes final (table _ hps hash groups' bytes' final' made cells rest) =
    omega (
      arith,
      length-append (table_bytes hash) bytes',
      length-table_bytes hash,
      length-Tables _ groups' bytes' final' rest,
    )

-- What the call leaves: the tables behind what was written, all of it handed to `op`, and the bytes
-- at the head of the file; or a reason for a failure.
pub data Done (c : Make) (groups : List (List Hp)) (seeks : Bool) (memory : Type 0)
    : Finished → Type 0 where
  whole :
      (f : Finished) (bytes : List ℕ)
      → f.status ≡ 0
      → Tables c.pos groups bytes f.head
      → f.make.b.sent ≡ held c.b ++ bytes
      → Done c groups seeks memory f
  broke : (f : Finished) → f.status ≡ 1 → breaks c.b.answers ≡ true → Done c groups seeks memory f
  no_seek : (f : Finished) → f.status ≡ 1 → seeks ≡ false → Done c groups seeks memory f
  no_memory : (f : Finished) → f.status ≡ 1 → memory → Done c groups seeks memory f

held-empty : (b : Buffer) → b.p ≡ 0 → held (record b { sent = [] }) ≡ []
unfolding held
held-empty b e = ap (λ (n : ℕ). take n b.x) e

module _ (c : Make) (groups : List (List Hp)) (memory : Type 0) where
  head-Done :
      (d : Make) (bytes final : List ℕ) (b : Buffer) (a : ℕ × Buffer) (seeks : Bool)
      → Tables c.pos groups bytes final
      → b.sent ≡ held c.b ++ bytes
      → (breaks b.answers ≡ true → breaks c.b.answers ≡ true)
      → held (record b { sent = [] }) ≡ []
      → Handed (record b { sent = [] }) final a
      → Done c groups seeks memory
          (record { status = a.0; make = record d { b = b }; head = a.1.sent })
  head-Done d bytes final b a seeks tables text kept empty (handed s' sent) =
      let given : s'.sent ≡ final = sent ∙ ap (λ (t : List ℕ). t ++ final) empty in
      whole _ bytes refl (subst (λ (t : List ℕ). Tables c.pos groups bytes t) (sym given) tables)
        text
  head-Done d bytes final b a seeks tables text kept empty (not_handed s' bad) =
      broke _ refl (kept bad)

  flush-Done :
      (d : Make) (bytes final : List ℕ) (seeks : Bool) (a : ℕ × Buffer)
      → Tables c.pos groups bytes final
      → held d.b ≡ held c.b ++ bytes
      → d.b.p + length final ≤ credit d.b.answers
      → (breaks d.b.answers ≡ true → breaks c.b.answers ≡ true)
      → Flushed d.b a
      → Ends (Done c groups seeks memory) (
          let e = record d { b = a.1 } in
          let head = putflush (record a.1 { sent = [] }) final >>= λ r.
          ok (record { status = r.0; make = e; head = r.1.sent }) in
          if a.0 == 0 && seeks then head else ok (failed e))
  flush-Done d bytes final false a tables text patience kept (flushed b same sent spent kept') =
      ends (no_seek _ refl refl)
  flush-Done d bytes final true a tables text patience kept (flushed b same sent spent kept') =
      let empty : held (record b { sent = [] }) ≡ [] = held-empty b same.0 in
      Ends-bind
        (λ r h.
          ends
            (head-Done d bytes final b r true tables (sent ∙ text) (λ e. kept (kept' e)) empty h))
        (putflush-Handed (record b { sent = [] }) final (omega (arith, spent, same.0)))
  flush-Done d bytes final false a tables text patience kept (unflushed b rest bad split) =
      ends (broke _ refl (kept bad))
  flush-Done d bytes final true a tables text patience kept (unflushed b rest bad split) =
      ends (broke _ refl (kept bad))

  pub write_head-Done :
      (seeks : Bool) (i : Indexed)
      → c.b.p + room_for groups + 8 * length groups ≤ credit c.b.answers
      → Tabled c groups [] i
      → Ends (Done c groups seeks memory) (write_head seeks i)
  unfolding write_head
  write_head-Done seeks i patience (not_tabled _ bad_status bad) =
      let e : (i.status == 0) ≡ false = ground arith in rw (e, write_head) (ends (broke _ refl bad))
  write_head-Done seeks i patience
        (tabled _ bytes final good tables ends_in valid text spent kept) =
      let e : (i.status == 0) ≡ true = ground arith in
      let tables' = subst (λ (t : List ℕ). Tables c.pos groups bytes t) (sym ends_in) tables in
      let small : length bytes ≡ room_for groups = length-Tables c.pos groups bytes final tables in
      let long : length i.final ≡ 8 * length groups =
        length-final c.pos groups bytes i.final tables' in
      rw (e, write_head)
        (Ends-bind
          (λ a h.
            flush-Done i.make bytes i.final seeks a tables' text (omega (arith, spent, small, long))
              kept h)
          (flush-Flushed i.make.b (omega (arith, spent, small))))
