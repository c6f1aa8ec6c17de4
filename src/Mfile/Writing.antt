-- ===== src/Mfile/Writing.antt =====
-- What mwrite leaves in the queue.
use mathlib.Core.Path.{subst}
use mathlib.Core.List.{append_assoc, append-nil}
use code_notebook.Base.{
  ℕ, zero, suc, ◌+◌, ◌-◌, ◌*◌, ◌%◌, ◌^◌, ◌≤◌, ◌<◌, ◌≡◌, inl, inr, refl, sym, ap, ◌∙◌, Bool, true,
  false, List, [], ◌∷◌, ◌++◌, some, arith, leb, ◌==◌, length, take, drop, length-append,
  length-take, length-drop, take-append-drop, Bool-cases,
}
use code_notebook.Run.{Run, ok, Ends, ends, Ends-weaken, Ends-if}
use code_notebook.Mfile.{
  DataBlock, Mfile, ready, write_block, append_at, store, mwrite_loop, mwrite,
}
use code_notebook.Mfile.Ready.{
  granted, has_room, IsValid, same-IsValid, Readied, readied, refused, ready-Readied,
}
use code_notebook.Mfile.Blocks.{contents, Filled, Filled-append, at-middle, append_at-middle}

-- 0 and all bytes behind what was there, and no new block is empty; or, where fewer than two allocations for each byte were
-- granted, -1 and only the first of them.
pub data Wrote (m : Mfile) (bytes : List ℕ) : ℕ × Mfile → Type 0 where
  wrote :
      (m' : Mfile)
      → IsValid m'
      → contents m'.head ≡ contents m.head ++ bytes
      → (Filled m.head → Filled m'.head)
      → m'.total_size ≡ m.total_size
      → Wrote m bytes (0, m')
  short_of_memory :
      (m' : Mfile) (sent rest : List ℕ)
      → IsValid m'
      → bytes ≡ sent ++ rest
      → contents m'.head ≡ contents m.head ++ sent
      → m'.total_size ≡ m.total_size
      → granted m.answers < 2 * length bytes
      → Wrote m bytes (1, m')

-- The block `b` at the end of the queue takes the bytes.
store-ok :
    (m : Mfile) (front : List DataBlock) (b : DataBlock) (bytes : List ℕ)
    → m.head ≡ front ++ b ∷ []
    → length b.text + length bytes ≤ m.data_block_size
    → store m (length front) b bytes ≡ ok (front ++ record b { text = b.text ++ bytes } ∷ [])
unfolding store
store-ok m front b bytes whole fits =
    let inside : leb (length b.text + length bytes) m.data_block_size ≡ true = ground arith in
    rw inside (
      ap ok (
        ap (λ (h : List DataBlock). append_at h (length front) bytes) whole
        ∙ append_at-middle front b [] bytes))

contents-stored :
    (front : List DataBlock) (b : DataBlock) (bytes : List ℕ)
    → contents (front ++ record b { text = b.text ++ bytes } ∷ [])
      ≡ contents (front ++ b ∷ []) ++ bytes
contents-stored [] b bytes =
    append-nil (b.text ++ bytes) ∙ ap (λ (t : List ℕ). t ++ bytes) (sym (append-nil b.text))
contents-stored (x ∷ front) b bytes =
    ap (◌++◌ x.text) (contents-stored front b bytes)
    ∙ sym (append_assoc x.text (contents (front ++ b ∷ [])) bytes)

-- The bytes that go to the next blocks.
more-Wrote :
    (m m' m'' : Mfile) (sent rest : List ℕ)
    → granted m.answers ≤ granted m'.answers + 2
    → 0 < length sent
    → contents m''.head ≡ contents m.head ++ sent
    → (Filled m.head → Filled m''.head)
    → m''.total_size ≡ m.total_size
    → granted m''.answers ≡ granted m'.answers
    → (r : ℕ × Mfile) → Wrote m'' rest r
    → Wrote m (sent ++ rest) r
more-Wrote m m' m'' sent rest spent some_sent held fill size same r
      (wrote w valid text filled total) =
    wrote w valid
      (text ∙ ap (λ (t : List ℕ). t ++ rest) held ∙ append_assoc (contents m.head) sent rest)
      (λ f. filled (fill f)) (total ∙ size)
more-Wrote m m' m'' sent rest spent some_sent held fill size same r
      (short_of_memory w now later valid split text total few) =
    short_of_memory w (sent ++ now) later valid
      (ap (◌++◌ sent) split ∙ sym (append_assoc sent now later))
      (text ∙ ap (λ (t : List ℕ). t ++ now) held ∙ append_assoc (contents m.head) sent now)
      (total ∙ size) (omega (arith, length-append sent rest))

stored-IsValid :
    (m : Mfile) (front : List DataBlock) (b : DataBlock) (bytes : List ℕ)
    → m.current_write_p ≡ some (length front)
    → 0 < m.data_block_size
    → length b.text + length bytes ≤ m.data_block_size
    → IsValid (record m {
      head = front ++ record b { text = b.text ++ bytes } ∷ [];
      is_full = length b.text + length bytes == m.data_block_size;
    })
stored-IsValid m front b bytes last some_room fits = record {
  sized = some_room;
  tail = elim (Bool-cases (length b.text + length bytes == m.data_block_size)) [
    | inl full ↦ inl full
    | inr room ↦ inr (
        has_room front (record b { text = b.text ++ bytes }) refl last
          (ground (arith, room, length-append b.text bytes)))
  ];
}

write_block-Wrote :
    (again : Mfile → List ℕ → Run (ℕ × Mfile)) (m : Mfile) (bytes : List ℕ)
    → IsValid m
    → 0 < length bytes
    → ((m' : Mfile) (rest : List ℕ)
        → IsValid m'
        → length rest < length bytes
        → Ends (Wrote m' rest) (again m' rest))
    → (r : Bool × Mfile) → Readied m r
    → Ends (Wrote m bytes) (write_block again bytes r)
unfolding write_block
write_block-Wrote again m bytes valid full next r (refused answers is_full few) = ends (
    short_of_memory (record m { answers = answers }) [] bytes
      (record { sized = valid.sized; tail = inl is_full }) refl (sym (append-nil (contents m.head)))
      refl (omega arith))
write_block-Wrote again m bytes valid full next r
      (readied m' front b whole last less fill same size block spent) =
    let free_count = m'.data_block_size - length b.text in
    let held : contents (front ++ b ∷ []) ≡ contents m.head = ap contents (sym whole) ∙ same in
    rw (at-middle m'.head m'.current_write_p front b [] whole last) (
      Ends-if (leb (length bytes) free_count)
        (λ fits. rw (store-ok m' front b bytes whole (ground (arith, fits))) (
          ends (
            wrote _
              (stored-IsValid m' front b bytes last (omega (arith, less)) (ground (arith, fits)))
              (contents-stored front b bytes ∙ ap (λ (t : List ℕ). t ++ bytes) held)
              (λ f.
                Filled-append front (record b { text = b.text ++ bytes }) (fill f)
                  (omega (arith, full, length-append b.text bytes)))
              size)))
        (λ more.
          let sent = take free_count bytes in
          let taken : length sent ≡ free_count =
            ground (arith, more, length-take free_count bytes) in
          rw (store-ok m' front b sent whole (omega (arith, taken))) (
            Ends-weaken
              (λ r done.
                subst (λ (t : List ℕ). Wrote m t r) (take-append-drop free_count bytes)
                  (more-Wrote m m' _ sent (drop free_count bytes) spent (omega (arith, taken, less))
                    (contents-stored front b sent ∙ ap (λ (t : List ℕ). t ++ sent) held)
                    (λ f.
                      Filled-append front (record b { text = b.text ++ sent }) (fill f)
                        (omega (arith, taken, less, length-append b.text sent)))
                    size refl r done))
              (next _ (drop free_count bytes)
                (record { sized = omega (arith, less); tail = inl refl })
                (omega (arith, length-drop free_count bytes))))))

mwrite_loop-Wrote :
    (fuel : ℕ) (m : Mfile) (bytes : List ℕ)
    → length bytes < fuel
    → IsValid m
    → Ends (Wrote m bytes) (mwrite_loop fuel m bytes)
unfolding mwrite_loop
mwrite_loop-Wrote zero m bytes less valid = absurd (omega arith)
mwrite_loop-Wrote (suc fuel) m [] less valid =
    ends (wrote m valid (sym (append-nil (contents m.head))) (λ f. f) refl)
mwrite_loop-Wrote (suc fuel) m (c ∷ bytes) less valid =
    let some_byte : (length (c ∷ bytes) == 0) ≡ false = ground arith in
    rw some_byte (
      write_block-Wrote (λ m' rest. mwrite_loop fuel m' rest) m (c ∷ bytes) valid (omega arith)
        (λ m' rest shorter held. mwrite_loop-Wrote fuel m' rest (omega (arith, held)) shorter)
        (ready m) (ready-Readied m valid))

-- mwrite on a valid file ends, inside its blocks, and leaves a valid file. With 1 all bytes stand
-- behind what was written before, and no block is empty if none was; -1 comes only when fewer than two allocations for each byte were
-- granted, and then some of the bytes do, up to the first refusal. total_size grows by the number
-- of bytes in both cases, modulo 2 ^ 32.
pub mwrite-Wrote :
    (m : Mfile) (bytes : List ℕ)
    → IsValid m
    → Ends
        (Wrote (record m { total_size = (m.total_size + length bytes) % 2 ^ 32 }) bytes)
        (mwrite m bytes)
unfolding mwrite
mwrite-Wrote m bytes valid =
    let m' = record m { total_size = (m.total_size + length bytes) % 2 ^ 32 } in
    mwrite_loop-Wrote (length bytes + 1) m' bytes (omega arith)
      (same-IsValid m m' refl refl refl refl valid)
