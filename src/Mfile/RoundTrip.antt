-- ===== src/Mfile/RoundTrip.antt =====
-- Reading what was written.
use code_notebook.Base.{
  ℕ, ◌*◌, ◌+◌, ◌%◌, ◌^◌, ◌≤◌, ◌<◌, ◌≡◌, ap, List, ◌++◌, Option, some, arith, length, length-append,
  take,
}
use code_notebook.Run.{Ends, Ends-weaken}
use code_notebook.Mfile.{DataBlock, Mfile, mwrite, mseek}
use code_notebook.Mfile.Blocks.{contents, contents-unread_block, Filled}
use code_notebook.Mfile.Ready.{granted, IsValid}
use code_notebook.Mfile.Writing.{Wrote, wrote, short_of_memory, mwrite-Wrote}
use code_notebook.Mfile.Read.{mread}
use code_notebook.Mfile.Read.InOrder.{Got, nothing, got, mread-Got, mseek-Reads}

-- mwrite has returned 1, and mread from the start gives the first `len` bytes.
pub data ReadBack (len : ℕ) (bytes : List ℕ) : ℕ × Mfile → Type 0 where
  read_back :
      (m : Mfile)
      → Ends (λ (r : Option (List ℕ) × Mfile). r.0 ≡ some (take len bytes)) (mread (mseek m) len)
      → ReadBack len bytes (0, m)

Got-all :
    (m : Mfile) (len : ℕ) (bytes : List ℕ)
    → contents m.head ≡ bytes
    → 0 < length bytes
    → (r : Option (List ℕ) × Mfile) → Got (mseek m) len (contents m.head) r
    → r.0 ≡ some (take len bytes)
unfolding mseek
Got-all m len bytes text some_bytes r (got m' there same) =
    ap (λ (t : List ℕ). some (take len t)) text
Got-all m len bytes text some_bytes r (nothing empty) = absurd (
    omega (
      arith,
      some_bytes,
      ap length text,
      ap (λ (h : List DataBlock). length (contents h)) empty,
      ap length (contents-unread_block m.head),
    ))

Wrote-ReadBack :
    (m : Mfile) (bytes : List ℕ) (len : ℕ)
    → Filled m.head
    → 0 < length bytes
    → 2 * length bytes ≤ granted m.answers
    → (r : ℕ × Mfile)
    → Wrote (record m { total_size = (m.total_size + length bytes) % 2 ^ 32 }) bytes r
    → ReadBack len (contents m.head ++ bytes) r
Wrote-ReadBack m bytes len filled some_bytes room r (wrote m' valid text fill total) =
    read_back m' (
      Ends-weaken
        (Got-all m' len (contents m.head ++ bytes) text
          (omega (arith, some_bytes, length-append (contents m.head) bytes)))
        (mread-Got (mseek m') len (contents m'.head) (mseek-Reads m' (fill filled))))
Wrote-ReadBack m bytes len filled some_bytes room r
      (short_of_memory m' sent rest valid split text total few) =
    absurd (omega (arith, few, room))

-- On a valid file without an empty block, when two allocations are granted for each byte, mwrite of
-- at least one byte ends with 1; and after mseek, mread then ends and gives the first `len` of the
-- bytes of the file, the new ones last, or all if there are fewer.
pub mread-mwrite :
    (m : Mfile) (bytes : List ℕ) (len : ℕ)
    → IsValid m
    → Filled m.head
    → 0 < length bytes
    → 2 * length bytes ≤ granted m.answers
    → Ends (ReadBack len (contents m.head ++ bytes)) (mwrite m bytes)
mread-mwrite m bytes len valid filled some_bytes room =
    Ends-weaken (Wrote-ReadBack m bytes len filled some_bytes room) (mwrite-Wrote m bytes valid)
