-- ===== src/Mfile/Blocks.antt =====
-- The queue of blocks as the bytes that it holds.
use mathlib.Core.List.{append_assoc}
use code_notebook.Base.{
  ℕ, ◌<◌, ◌≡◌, refl, sym, ap, ◌∙◌, List, [], ◌∷◌, ◌++◌, Option, some, map, length, get_elem?,
}
use code_notebook.Run.{ok}
use code_notebook.Mfile.{DataBlock, at, append_at, set_read, unread_block}

abbrev pub contents : List DataBlock → List ℕ
contents [] = []
contents (b ∷ blocks) = b.text ++ contents blocks

pub contents-append : (a b : List DataBlock) → contents (a ++ b) ≡ contents a ++ contents b
contents-append [] b = refl
contents-append (x ∷ a) b =
    ap (◌++◌ x.text) (contents-append a b) ∙ sym (append_assoc x.text (contents a) (contents b))

pub contents-unread_block :
    (blocks : List DataBlock) → contents (map unread_block blocks) ≡ contents blocks
contents-unread_block [] = refl
contents-unread_block (b ∷ blocks) = ap (◌++◌ b.text) (contents-unread_block blocks)

pub get_elem?-middle :
    (front : List DataBlock) (b : DataBlock) (after : List DataBlock)
    → get_elem? (front ++ b ∷ after) (length front) ≡ some b
get_elem?-middle [] b after = refl
get_elem?-middle (x ∷ front) b after = get_elem?-middle front b after

pub append_at-middle :
    (front : List DataBlock) (b : DataBlock) (after : List DataBlock) (bytes : List ℕ)
    → append_at (front ++ b ∷ after) (length front) bytes
      ≡ front ++ record b { text = b.text ++ bytes } ∷ after
append_at-middle [] b after bytes = refl
append_at-middle (x ∷ front) b after bytes = ap (◌∷◌ x) (append_at-middle front b after bytes)

pub set_read-middle :
    (front : List DataBlock) (b : DataBlock) (after : List DataBlock) (n : ℕ)
    → set_read (front ++ b ∷ after) (length front) n
      ≡ front ++ record b { current_read_count = n } ∷ after
set_read-middle [] b after n = refl
set_read-middle (x ∷ front) b after n = ap (◌∷◌ x) (set_read-middle front b after n)

pub at-middle :
    (head : List DataBlock) (p : Option ℕ) (front : List DataBlock) (b : DataBlock)
    (after : List DataBlock)
    → head ≡ front ++ b ∷ after
    → p ≡ some (length front)
    → at head p ≡ ok (length front, b)
unfolding at
at-middle head p front b after whole there =
    ap (λ (q : Option ℕ). at head q) there
    ∙ ap (λ (h : List DataBlock). at h (some (length front))) whole
    ∙ rw (get_elem?-middle front b after) refl

-- How much of a block was read does not change what it holds.
pub contents-read :
    (front : List DataBlock) (b : DataBlock) (after : List DataBlock) (n : ℕ)
    → contents (front ++ record b { current_read_count = n } ∷ after)
      ≡ contents (front ++ b ∷ after)
contents-read [] b after n = refl
contents-read (x ∷ front) b after n = ap (◌++◌ x.text) (contents-read front b after n)

-- No block is empty.
abbrev pub Filled : List DataBlock → Type 0
Filled [] = Unit
Filled (b ∷ blocks) = (0 < length b.text) × Filled blocks

pub Filled-front :
    (front : List DataBlock) (b : DataBlock) → Filled (front ++ b ∷ []) → Filled front
Filled-front [] b h = tt
Filled-front (x ∷ front) b (some_byte, rest) = (some_byte, Filled-front front b rest)

pub Filled-append :
    (front : List DataBlock) (b : DataBlock)
    → Filled front
    → 0 < length b.text
    → Filled (front ++ b ∷ [])
Filled-append [] b h full = (full, tt)
Filled-append (x ∷ front) b (some_byte, rest) full = (some_byte, Filled-append front b rest full)
