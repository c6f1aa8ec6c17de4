-- ===== src/Mfile/Read/Place.antt =====
-- Where a reader stands, and how it moves on to the next block.
use mathlib.Core.Path.{subst}
use mathlib.Core.List.{append_assoc, append-nil}
use code_notebook.Base.{
  ℕ, suc, ◌≤◌, ◌<◌, ◌≡◌, refl, sym, ap, ◌∙◌, true, false, List, [], ◌∷◌, ◌++◌, Option, none, some,
  arith, ltb, ◌==◌, length, length-append, if-cases,
}
use code_notebook.Base.Slices.{drop-all}
use code_notebook.Mfile.{DataBlock, Mfile}
use code_notebook.Mfile.Read.{next_of, next_block, moved_on, unread}
use code_notebook.Mfile.Blocks.{contents}

-- Blocks of which nothing was read, and none of which is empty.
abbrev pub Fresh : List DataBlock → Type 0
Fresh [] = Unit
Fresh (b ∷ blocks) = (b.current_read_count ≡ 0) × (0 < length b.text) × Fresh blocks

-- The reader is in the block `b`, and read no further.
pub data InBlock (m : Mfile) : List ℕ → Type 0 where
  in_block :
      (front : List DataBlock) (b : DataBlock) (after : List DataBlock)
      → m.head ≡ front ++ b ∷ after
      → m.current_read_p ≡ some (length front)
      → b.current_read_count ≤ length b.text
      → m.is_empty ≡ (b.current_read_count == length b.text)
      → Fresh after
      → InBlock m (unread b ++ contents after)

-- After an emptied block the reader moves on, unless it was the last.
pub data Moved (m : Mfile) (rest : List ℕ) : Option Mfile → Type 0 where
  at_end : rest ≡ [] → Moved m rest none
  in_next :
      (m' : Mfile) (front : List DataBlock) (b : DataBlock) (after : List DataBlock)
      → m'.head ≡ front ++ b ∷ after
      → m'.current_read_p ≡ some (length front)
      → b.current_read_count < length b.text
      → Fresh after
      → rest ≡ unread b ++ contents after
      → contents m'.head ≡ contents m.head
      → Moved m rest (some m')

unread-none : (b : DataBlock) → (b.current_read_count == length b.text) ≡ true → unread b ≡ []
unread-none b e =
    let same : b.current_read_count ≡ length b.text = ground arith in
    rw same (drop-all (length b.text) b.text (omega arith))

next_of-end :
    (head front : List DataBlock) (b : DataBlock)
    → head ≡ front ++ b ∷ []
    → next_of head (length front) ≡ none
unfolding next_of
next_of-end head front b whole =
    let last : ltb (suc (length front)) (length head) ≡ false =
      ground (arith, ap length whole, length-append front (b ∷ [])) in
    rw last refl

next_of-next :
    (head front : List DataBlock) (b b' : DataBlock) (after : List DataBlock)
    → head ≡ front ++ b ∷ b' ∷ after
    → next_of head (length front) ≡ some (suc (length front))
unfolding next_of
next_of-next head front b b' after whole =
    let inner : ltb (suc (length front)) (length head) ≡ true =
      ground (arith, ap length whole, length-append front (b ∷ b' ∷ after)) in
    rw inner refl

next_block-Moved :
    (m : Mfile) (front : List DataBlock) (b : DataBlock) (after : List DataBlock)
    → m.head ≡ front ++ b ∷ after
    → unread b ≡ []
    → Fresh after
    → Moved m (unread b ++ contents after) (next_block m (some (length front)))
unfolding next_block
next_block-Moved m front b [] whole done fresh =
    rw (next_of-end m.head front b whole, next_block) (at_end (append-nil (unread b) ∙ done))
next_block-Moved m front b (b' ∷ after) whole done (none_read, filled, fresh) =
    rw (next_of-next m.head front b b' after whole, next_block)
      (in_next _ (front ++ b ∷ []) b' after (whole ∙ sym (append_assoc front (b ∷ []) (b' ∷ after)))
        (ap some (omega (arith, length-append front (b ∷ [])))) (omega arith) fresh
        (ap (λ (t : List ℕ). t ++ contents (b' ∷ after)) done ∙ rw none_read refl) refl)

pub moved_on-Moved : (m : Mfile) (rest : List ℕ) → InBlock m rest → Moved m rest (moved_on m)
unfolding moved_on
moved_on-Moved m rest (in_block front b after whole here low flag fresh) =
    if-cases (Moved m rest) m.is_empty
      (λ e.
        subst (λ (p : Option ℕ). Moved m (unread b ++ contents after) (next_block m p)) (sym here)
          (next_block-Moved m front b after whole (unread-none b (sym flag ∙ e)) fresh))
      (λ e.
        let inside : (b.current_read_count == length b.text) ≡ false = sym flag ∙ e in
        in_next m front b after whole here (ground (arith, inside)) fresh refl refl)
