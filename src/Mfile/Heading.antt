-- ===== src/Mfile/Heading.antt =====
-- What mwrite_head leaves in the queue.
use code_notebook.Base.{
  ℕ, ◌+◌, ◌%◌, ◌^◌, ◌≤◌, ◌<◌, ◌≡◌, ◌⊎◌, inl, inr, refl, ap, ◌∙◌, true, false, List, ◌∷◌, ◌++◌,
  arith, ltb, length, if-cases,
}
use code_notebook.Mfile.{DataBlock, Mfile, alloc_block, shifted, mwrite_head}
use code_notebook.Mfile.Blocks.{contents}
use code_notebook.Mfile.Ready.{HasRoom, has_room, IsValid, same-IsValid}
use code_notebook.Mfile.Read.Place.{InBlock, in_block}

-- 0: the bytes fit into a block and there was memory for it. They stand before the others, and the
-- reader and the writer go on where they were. 1: the queue is as it was.
pub data Headed (m : Mfile) (bytes : List ℕ) : ℕ × Mfile → Type 0 where
  headed :
      (m' : Mfile)
      → length bytes ≤ m.data_block_size
      → (alloc_block m.answers).0 ≡ true
      → IsValid m'
      → contents m'.head ≡ bytes ++ contents m.head
      → ((rest : List ℕ) → InBlock m rest → InBlock m' rest)
      → m'.total_size ≡ (m.total_size + length bytes) % 2 ^ 32
      → m'.new_header_size ≡ (m.new_header_size + length bytes) % 2 ^ 32
      → Headed m bytes (0, m')
  not_headed :
      (m' : Mfile)
      → (m.data_block_size < length bytes) ⊎ ((alloc_block m.answers).0 ≡ false)
      → IsValid m'
      → m'.head ≡ m.head
      → Headed m bytes (1, m')

-- What holds of two files whose queues and pointers agree, but for a new first block.
module _ (m m' : Mfile) (block : DataBlock) (longer : m'.head ≡ block ∷ m.head)
    (writer : m'.current_write_p ≡ shifted m.current_write_p)
    (reader : m'.current_read_p ≡ shifted m.current_read_p) (full : m'.is_full ≡ m.is_full)
    (empty : m'.is_empty ≡ m.is_empty) (size : m'.data_block_size ≡ m.data_block_size) where
  longer-HasRoom : HasRoom m → HasRoom m'
  longer-HasRoom (has_room front b whole last less) =
      has_room (block ∷ front) b (longer ∙ ap (◌∷◌ block) whole) (writer ∙ ap shifted last)
        (omega (arith, less, size))

  longer-IsValid : IsValid m → IsValid m'
  longer-IsValid valid = record {
    sized = omega (arith, valid.sized, size);
    tail = elim valid.tail [
      | inl is_full ↦ inl (full ∙ is_full)
      | inr room ↦ inr (longer-HasRoom room)
    ];
  }

  longer-InBlock : (rest : List ℕ) → InBlock m rest → InBlock m' rest
  longer-InBlock _ (in_block front b after whole here low flag fresh) =
      in_block (block ∷ front) b after (longer ∙ ap (◌∷◌ block) whole) (reader ∙ ap shifted here)
        low (empty ∙ flag) fresh

-- mwrite_head on a valid file leaves a valid file. It returns 1 when the bytes fit into one block
-- and memory is granted for it: they stand before all others, a reader in a block and the writer go
-- on where they were, and both sizes grow by the bytes, modulo 2 ^ 32. Otherwise it returns -1, and the queue is as
-- it was.
pub mwrite_head-Headed :
    (m : Mfile) (bytes : List ℕ) → IsValid m → Headed m bytes (mwrite_head m bytes)
unfolding mwrite_head
mwrite_head-Headed m bytes valid =
    let block : DataBlock = record { text = bytes; current_read_count = 0 } in
    if-cases (Headed m bytes) (ltb m.data_block_size (length bytes))
      (λ exceeds. not_headed m (inl (ground (arith, exceeds))) valid refl)
      (λ fits.
        if-cases (Headed m bytes) (alloc_block m.answers).0
          (λ room.
            headed _ (ground (arith, fits)) room
              (longer-IsValid m _ block refl refl refl refl refl refl valid) refl
              (longer-InBlock m _ block refl refl refl refl refl refl) refl refl)
          (λ refused. not_headed _ (inr refused) (same-IsValid m _ refl refl refl refl valid) refl))
