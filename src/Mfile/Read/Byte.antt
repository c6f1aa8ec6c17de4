-- ===== src/Mfile/Read/Byte.antt =====
-- What mgetc finds.
use code_notebook.Base.{
  ℕ, zero, suc, ◌+◌, ◌<◌, ◌≡◌, refl, sym, ap, ◌∙◌, false, List, [], ◌∷◌, ◌++◌, Option, none, some,
  arith, ◌==◌, length, get_elem?, drop, length-drop,
}
use mathlib.Core.Path.{subst}
use code_notebook.Run.{ok, Ends, ends}
use code_notebook.Mfile.{DataBlock, Mfile}
use code_notebook.Mfile.Blocks.{contents, at-middle}
use code_notebook.Mfile.Read.{started, started_at, first_block, moved_on, unread, read_byte, mgetc}
use code_notebook.Mfile.Read.Place.{
  Fresh, InBlock, in_block, Moved, at_end, in_next, moved_on-Moved,
}
use code_notebook.Mfile.Read.InOrder.{Reads, at_start, further, read_on-InBlock, started-InBlock}

-- The first of the bytes to come, with the reader behind it; or 0 at the end.
pub data Next : List ℕ → ℕ × Mfile → Type 0 where
  next_byte : (m : Mfile) (c : ℕ) (rest : List ℕ) → InBlock m rest → Next (c ∷ rest) (c, m)
  no_byte : (m : Mfile) → Next [] (0, m)

split_at :
    (k : ℕ) (text : List ℕ)
    → k < length text
    → (c : ℕ) × (rest : List ℕ) × (get_elem? text k ≡ some c) × (drop k text ≡ c ∷ rest)
split_at k [] h = absurd (omega arith)
split_at zero (c ∷ text) h = (c, text, refl, refl)
split_at (suc k) (c ∷ text) h = split_at k text (omega arith)

read_byte-Next :
    (m : Mfile) (front : List DataBlock) (b : DataBlock) (after : List DataBlock)
    → m.head ≡ front ++ b ∷ after
    → m.current_read_p ≡ some (length front)
    → b.current_read_count < length b.text
    → Fresh after
    → Ends (Next (unread b ++ contents after)) (read_byte m)
unfolding read_byte
read_byte-Next m front b after whole here low fresh =
    let (c, rest, byte, split) = split_at b.current_read_count b.text low in
    let flag = b.current_read_count + 1 == length b.text in
    let come : unread b ++ contents after ≡ c ∷ (rest ++ contents after) =
      ap (λ (t : List ℕ). t ++ contents after) split in
    let there =
      read_on-InBlock m front b after whole here low fresh 1 flag
        (omega (arith, low, length-drop b.current_read_count b.text)) refl in
    rw (at-middle m.head m.current_read_p front b after whole here) (
      rw (byte, come)
        (ends
          (next_byte _ c (rest ++ contents after) (subst (InBlock _) (ap (drop 1) come) there))))

turn-Next :
    (m : Mfile) (rest : List ℕ) (o : Option Mfile)
    → Moved m rest o
    → Ends (Next rest) (elim o [ none ↦ ok (0, m) | some m' ↦ read_byte m' ])
turn-Next m rest o (at_end nothing) =
    subst (λ (t : List ℕ). Ends (Next t) (ok (0, m))) (sym nothing) (ends (no_byte m))
turn-Next m rest o (in_next m' front b after whole here low fresh same held) =
    subst (λ (t : List ℕ). Ends (Next t) (read_byte m')) (sym same)
      (read_byte-Next m' front b after whole here low fresh)

begin-Next :
    (m : Mfile) (blocks : List DataBlock)
    → m.head ≡ blocks
    → m.current_read_p ≡ none
    → m.is_empty ≡ false
    → Fresh blocks
    → Ends (Next (contents blocks)) (mgetc m)
unfolding mgetc started_at first_block
begin-Next m [] whole none_yet open_ fresh =
    let empty : started m ≡ none = ap (started_at m) none_yet ∙ ap (first_block m) whole in
    rw (empty, mgetc) (ends (no_byte m))
begin-Next m (b ∷ blocks) whole none_yet open_ fresh =
    let m' = record m { current_read_p = some 0 } in
    let begun : started m ≡ some m' = ap (started_at m) none_yet ∙ ap (first_block m) whole in
    rw (begun, mgetc)
      (turn-Next m' (contents (b ∷ blocks)) (moved_on m')
        (moved_on-Moved m' (contents (b ∷ blocks)) (started-InBlock m b blocks whole open_ fresh)))

-- Where the reader stands before certain bytes, mgetc ends and reads inside the blocks: it gives
-- the first of them and stands before the others, or 0 when there is none.
pub mgetc-Next : (m : Mfile) (rest : List ℕ) → Reads m rest → Ends (Next rest) (mgetc m)
unfolding mgetc started_at
mgetc-Next m _ (at_start none_yet open_ fresh) = begin-Next m m.head refl none_yet open_ fresh
mgetc-Next m _ (further rest (in_block front b after whole here low flag fresh)) =
    let goes_on : started m ≡ some m = ap (started_at m) here in
    rw (goes_on, mgetc)
      (turn-Next m (unread b ++ contents after) (moved_on m)
        (moved_on-Moved m _ (in_block front b after whole here low flag fresh)))
