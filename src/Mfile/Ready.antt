-- ===== src/Mfile/Ready.antt =====
-- Files that can be written to, and the search for a block with room.
use mathlib.Core.Path.{subst}
use mathlib.Core.List.{append-nil}
use code_notebook.Base.{
  ℕ, suc, ◌+◌, ◌≤◌, ◌<◌, ◌≡◌, ◌⊎◌, inl, inr, refl, ◌∙◌, Bool, true, false, List, [], ◌∷◌, ◌++◌,
  some, arith, length, if-cases,
}
use code_notebook.Mfile.{DataBlock, Mfile, new_block, alloc_block, ready}
use code_notebook.Mfile.Blocks.{contents, contents-append, Filled, Filled-front}

-- How many allocations are granted before one is refused.
unfoldable pub granted : List Bool → ℕ
granted [] = 0
granted (false ∷ answers) = 0
granted (true ∷ answers) = suc (granted answers)

-- The block that is written to is the last, and has room.
pub data HasRoom (m : Mfile) : Type 0 where
  has_room :
      (front : List DataBlock) (b : DataBlock)
      → m.head ≡ front ++ b ∷ []
      → m.current_write_p ≡ some (length front)
      → length b.text < m.data_block_size
      → HasRoom m

pub record IsValid (m : Mfile) : Type 0 where
  pub sized : 0 < m.data_block_size
  pub tail : (m.is_full ≡ true) ⊎ HasRoom m

-- The queue, the writer and the two facts about blocks are all that counts.
pub same-IsValid :
    (m m' : Mfile)
    → m'.head ≡ m.head
    → m'.current_write_p ≡ m.current_write_p
    → m'.is_full ≡ m.is_full
    → m'.data_block_size ≡ m.data_block_size
    → IsValid m
    → IsValid m'
same-IsValid m m' queue writer full size valid = record {
  sized = omega (arith, valid.sized, size);
  tail = elim valid.tail [
    | inl is_full ↦ inl (full ∙ is_full)
    | inr (has_room front b whole last less) ↦
        inr (has_room front b (queue ∙ whole) (writer ∙ last) (omega (arith, less, size)))
  ];
}

-- The step that finds a block with room, or is refused one.
pub data Readied (m : Mfile) : Bool × Mfile → Type 0 where
  readied :
      (m' : Mfile) (front : List DataBlock) (b : DataBlock)
      → m'.head ≡ front ++ b ∷ []
      → m'.current_write_p ≡ some (length front)
      → length b.text < m'.data_block_size
      → (Filled m.head → Filled front)
      → contents m'.head ≡ contents m.head
      → m'.total_size ≡ m.total_size
      → m'.data_block_size ≡ m.data_block_size
      → granted m.answers ≤ granted m'.answers + 2
      → Readied m (true, m')
  refused :
      (answers : List Bool)
      → m.is_full ≡ true
      → granted m.answers < 2
      → Readied m (false, record m { answers = answers })

alloc_block-granted :
    (answers : List Bool)
    → (granted answers ≤ granted (alloc_block answers).1 + 2)
      × ((alloc_block answers).0 ≡ false → granted answers < 2)
unfolding granted alloc_block
alloc_block-granted [] = (omega arith, λ e. omega arith)
alloc_block-granted (false ∷ answers) = (omega arith, λ e. omega arith)
alloc_block-granted (true ∷ []) = (omega arith, λ e. omega arith)
alloc_block-granted (true ∷ false ∷ answers) = (omega arith, λ e. omega arith)
alloc_block-granted (true ∷ true ∷ answers) = (omega arith, λ e. absurd (cc (e)))

still_HasRoom : (m : Mfile) → m.is_full ≡ false → IsValid m → HasRoom m
still_HasRoom m free valid = elim valid.tail [
  | inl full ↦ absurd (cc (full, free))
  | inr room ↦ room
]

still-Readied : (m : Mfile) → HasRoom m → Readied m (true, m)
still-Readied m (has_room front b whole last less) =
    readied m front b whole last less (λ filled. Filled-front front b (subst Filled whole filled))
      refl refl refl (omega arith)

pub ready-Readied : (m : Mfile) → IsValid m → Readied m (ready m)
unfolding ready
ready-Readied m valid =
    let (less, none_left) = alloc_block-granted m.answers in
    if-cases (Readied m) m.is_full
      (λ full.
        if-cases (Readied m) (alloc_block m.answers).0
          (λ room.
            readied _ m.head new_block refl refl valid.sized (λ filled. filled)
              (contents-append m.head (new_block ∷ []) ∙ append-nil (contents m.head)) refl refl
              less)
          (λ e. refused _ full (none_left e)))
      (λ free. still-Readied m (still_HasRoom m free valid))
