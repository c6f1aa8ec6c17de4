-- ===== src/Mfile/Read/InOrder.antt =====
-- What mread finds.
use mathlib.Core.Path.{subst}
use mathlib.Core.List.{append_assoc, append-nil}
use code_notebook.Base.{
  ℕ, zero, suc, ◌+◌, ◌-◌, ◌≤◌, ◌<◌, ◌≡◌, refl, sym, ap, ◌∙◌, Bool, true, false, List, [], ◌∷◌, ◌++◌,
  Option, none, some, map, arith, leb, ◌==◌, length, take, drop, length-drop,
}
use code_notebook.Base.Slices.{
  take-append, drop-append, drop-drop, drop-all, drop-nil, take-nil, take-all,
}
use code_notebook.Run.{Run, ok, Ends, ends, Ends-bind, Ends-weaken, Ends-if}
use code_notebook.Mfile.{DataBlock, Mfile, set_read, mseek, unread_block}
use code_notebook.Mfile.Read.{
  first_block, started_at, started, moved_on, unread, read_block, mread_loop, mread,
}
use code_notebook.Mfile.Read.Place.{
  Fresh, InBlock, in_block, Moved, at_end, in_next, moved_on-Moved,
}
use code_notebook.Mfile.Blocks.{
  contents, contents-unread_block, Filled, contents-read, at-middle, set_read-middle,
}

-- The bytes are the next ones, and the reader is behind them.
data Read (m : Mfile) (len : ℕ) (out rest : List ℕ) : List ℕ × Mfile → Type 0 where
  read_to :
      (m' : Mfile)
      → InBlock m' (drop len rest)
      → contents m'.head ≡ contents m.head
      → Read m len out rest (out ++ take len rest, m')

later-Read :
    (m m' : Mfile) (len more : ℕ) (out out' rest rest' : List ℕ) (r : List ℕ × Mfile)
    → out' ++ take more rest' ≡ out ++ take len rest
    → drop more rest' ≡ drop len rest
    → contents m'.head ≡ contents m.head
    → Read m' more out' rest' r
    → Read m len out rest r
later-Read m m' len more out out' rest rest' r taken left same (read_to m'' there held) =
    subst (λ (t : List ℕ). Read m len out rest (t, m'')) (sym taken)
      (read_to m'' (subst (InBlock m'') left there) (held ∙ same))

module _ (m : Mfile) (front : List DataBlock) (b : DataBlock) (after : List DataBlock)
    (whole : m.head ≡ front ++ b ∷ after) (here : m.current_read_p ≡ some (length front))
    (low : b.current_read_count < length b.text) (fresh : Fresh after) where
  -- `n` more bytes of the block are read.
  abbrev pub read_on : (n : ℕ) (flag : Bool) → Mfile
  read_on n flag = record m {
    head = set_read m.head (length front) (b.current_read_count + n);
    is_empty = flag;
  }

  head_after :
      (n : ℕ)
      → set_read m.head (length front) n ≡ front ++ record b { current_read_count = n } ∷ after
  head_after n =
      ap (λ (h : List DataBlock). set_read h (length front) n) whole
      ∙ set_read-middle front b after n

  contents_after : (n : ℕ) → contents (set_read m.head (length front) n) ≡ contents m.head
  contents_after n =
      ap contents (head_after n) ∙ contents-read front b after n ∙ ap contents (sym whole)

  abbrev pub to_come : List ℕ
  to_come = unread b ++ contents after

  size : length (unread b) + b.current_read_count ≡ length b.text
  size = omega (arith, length-drop b.current_read_count b.text)

  pub read_on-InBlock :
      (n : ℕ) (flag : Bool)
      → n ≤ length (unread b)
      → flag ≡ (b.current_read_count + n == length b.text)
      → InBlock (read_on n flag) (drop n to_come)
  read_on-InBlock n flag less same =
      let b' = record b { current_read_count = b.current_read_count + n } in
      let gone : n - length (unread b) ≡ 0 = omega (arith, less) in
      let left : unread b' ++ contents after ≡ drop n to_come =
        ap (λ (t : List ℕ). t ++ contents after) (drop-drop b.current_read_count n b.text)
        ∙ sym (drop-append n (unread b) (contents after) ∙ rw gone refl) in
      subst (InBlock (read_on n flag)) left (
        in_block front b' after (head_after (b.current_read_count + n)) here
          (omega (arith, less, size)) same fresh)

  read_block-Read :
      (again : Mfile → ℕ → List ℕ → Run (List ℕ × Mfile)) (len : ℕ) (out : List ℕ)
      → ((m' : Mfile) (more : ℕ) (out' rest' : List ℕ)
          → InBlock m' rest'
          → more < len
          → Ends (Read m' more out' rest') (again m' more out'))
      → Ends (Read m len out to_come) (read_block again len out m)
  unfolding read_block
  read_block-Read again len out next =
      let u = unread b in
      let c = contents after in
      rw (at-middle m.head m.current_read_p front b after whole here) (
        Ends-if (length u == 0) (λ e. absurd (ground (arith, e, size, low)))
          (λ more.
            Ends-if (leb len (length u))
              (λ fits.
                let gone : len - length u ≡ 0 = ground (arith, fits) in
                let taken : take len to_come ≡ take len u =
                  take-append len u c ∙ rw gone (append-nil (take len u)) in
                subst
                  (λ (t : List ℕ).
                    Ends (Read m len out to_come)
                      (ok (out ++ t, read_on len (b.current_read_count + len == length b.text))))
                  taken
                  (ends (
                    read_to (read_on len (b.current_read_count + len == length b.text))
                      (read_on-InBlock len _ (ground (arith, fits)) refl)
                      (contents_after (b.current_read_count + len)))))
              (λ exceeds.
                let left = len - length u in
                let gone : length u - length u ≡ 0 = omega arith in
                let behind : drop (length u) to_come ≡ c =
                  drop-append (length u) u c
                  ∙ rw (gone, drop-all (length u) u (omega arith)) refl in
                let first : take len u ≡ u = take-all len u (ground (arith, exceeds)) in
                let whole_len : length u + left ≡ len = ground (arith, exceeds) in
                let taken : (out ++ u) ++ take left (drop (length u) to_come)
                    ≡ out ++ take len to_come =
                  rw (behind, take-append len u c, first) (append_assoc out u (take left c)) in
                let dropped : drop left (drop (length u) to_come) ≡ drop len to_come =
                  sym (drop-drop (length u) left to_come)
                  ∙ ap (λ (n : ℕ). drop n to_come) whole_len in
                let emptied = read_on (length u) true in
                Ends-weaken
                  (λ r.
                    later-Read m emptied len left out (out ++ u) to_come (drop (length u) to_come) r
                      taken dropped (contents_after (b.current_read_count + length u)))
                  (next emptied left (out ++ u) (drop (length u) to_come)
                    (read_on-InBlock (length u) true (omega arith) (ground (arith, size)))
                    (ground (arith, exceeds, more))))))

end-Read :
    (m : Mfile) (len : ℕ) (out rest : List ℕ)
    → take len rest ≡ []
    → drop len rest ≡ rest
    → InBlock m rest
    → Ends (Read m len out rest) (ok (out, m))
end-Read m len out rest nothing same there =
    subst (λ (t : List ℕ). Ends (Read m len out rest) (ok (t, m)))
      (ap (◌++◌ out) nothing ∙ append-nil out)
      (ends (read_to m (subst (InBlock m) (sym same) there) refl))

turn-Read :
    (again : Mfile → ℕ → List ℕ → Run (List ℕ × Mfile)) (m : Mfile) (len : ℕ) (out rest : List ℕ)
    → ((m' : Mfile) (more : ℕ) (out' rest' : List ℕ)
        → InBlock m' rest'
        → more < len
        → Ends (Read m' more out' rest') (again m' more out'))
    → InBlock m rest
    → (o : Option Mfile) → Moved m rest o
    → Ends
        (Read m len out rest)
        (elim o [ none ↦ ok (out, m) | some m' ↦ read_block again len out m' ])
turn-Read again m len out rest next there o (at_end nothing) =
    end-Read m len out rest (ap (take len) nothing ∙ take-nil len)
      (ap (drop len) nothing ∙ drop-nil len ∙ sym nothing) there
turn-Read again m len out rest next there o
      (in_next m' front b after whole here low fresh same held) =
    Ends-weaken
      (λ r.
        later-Read m m' len len out out rest (unread b ++ contents after) r
          (ap (λ (t : List ℕ). out ++ take len t) (sym same)) (ap (drop len) (sym same)) held)
      (read_block-Read m' front b after whole here low fresh again len out next)

mread_loop-Read :
    (fuel : ℕ) (m : Mfile) (len : ℕ) (out rest : List ℕ)
    → len < fuel
    → InBlock m rest
    → Ends (Read m len out rest) (mread_loop fuel m len out)
unfolding mread_loop
mread_loop-Read zero m len out rest less there = absurd (omega arith)
mread_loop-Read (suc fuel) m len out rest less there =
    Ends-if (len == 0)
      (λ e.
        let none_left : len ≡ 0 = ground arith in
        rw none_left (end-Read m 0 out rest refl refl there))
      (λ e.
        turn-Read (λ later more out'. mread_loop fuel later more out') m len out rest
          (λ later more out' rest' inside fewer.
            mread_loop-Read fuel later more out' rest' (omega (arith, fewer)) inside)
          there (moved_on m) (moved_on-Moved m rest there))

-- The reader is at the beginning of a queue that has no empty block, or in one of its blocks, and
-- these bytes are to come.
pub data Reads (m : Mfile) : List ℕ → Type 0 where
  at_start : m.current_read_p ≡ none → m.is_empty ≡ false → Fresh m.head → Reads m (contents m.head)
  further : (rest : List ℕ) → InBlock m rest → Reads m rest

-- -1 from an empty queue, or as many of the bytes as there are.
pub data Got (m : Mfile) (len : ℕ) (rest : List ℕ) : Option (List ℕ) × Mfile → Type 0 where
  nothing : m.head ≡ [] → Got m len rest (none, m)
  got :
      (m' : Mfile)
      → Reads m' (drop len rest)
      → contents m'.head ≡ contents m.head
      → Got m len rest (some (take len rest), m')

pub started-InBlock :
    (m : Mfile) (b : DataBlock) (blocks : List DataBlock)
    → m.head ≡ b ∷ blocks
    → m.is_empty ≡ false
    → Fresh (b ∷ blocks)
    → InBlock (record m { current_read_p = some 0 }) (contents (b ∷ blocks))
started-InBlock m b blocks whole open_ (none_read, filled, fresh) =
    let flag : (b.current_read_count == length b.text) ≡ false = ground (arith, none_read) in
    subst (InBlock (record m { current_read_p = some 0 }))
      (ap (λ (n : ℕ). drop n b.text ++ contents blocks) none_read)
      (in_block [] b blocks whole refl (omega (arith, none_read)) (open_ ∙ sym flag) fresh)

Read-Got :
    (m m' : Mfile) (len : ℕ) (rest : List ℕ)
    → contents m'.head ≡ contents m.head
    → (r : List ℕ × Mfile) → Read m' len [] rest r
    → Ends (Got m len rest) (ok (some r.0, r.1))
Read-Got m m' len rest same r (read_to m'' there held) =
    ends (got m'' (further _ there) (held ∙ same))

begin-Got :
    (m : Mfile) (len : ℕ) (blocks : List DataBlock)
    → m.head ≡ blocks
    → m.current_read_p ≡ none
    → m.is_empty ≡ false
    → Fresh blocks
    → Ends (Got m len (contents blocks)) (mread m len)
unfolding mread started_at first_block
begin-Got m len [] whole none_yet open_ fresh =
    let empty : started m ≡ none = ap (started_at m) none_yet ∙ ap (first_block m) whole in
    rw (empty, mread) (ends (nothing whole))
begin-Got m len (b ∷ blocks) whole none_yet open_ fresh =
    let m' = record m { current_read_p = some 0 } in
    let begun : started m ≡ some m' = ap (started_at m) none_yet ∙ ap (first_block m) whole in
    rw (begun, mread)
      (Ends-bind (Read-Got m m' len (contents (b ∷ blocks)) refl) (
        mread_loop-Read (len + 1) m' len [] (contents (b ∷ blocks)) (omega arith)
          (started-InBlock m b blocks whole open_ fresh)))

-- Where the reader stands before certain bytes, mread ends and reads inside the blocks: it gives
-- the first `len` of them, or all if there are fewer, and stands before the others; the bytes of
-- the file stay as they are. -1 comes only of an empty queue.
pub mread-Got :
    (m : Mfile) (len : ℕ) (rest : List ℕ) → Reads m rest → Ends (Got m len rest) (mread m len)
unfolding mread started_at
mread-Got m len _ (at_start none_yet open_ fresh) = begin-Got m len m.head refl none_yet open_ fresh
mread-Got m len _ (further rest (in_block front b after whole here low flag fresh)) =
    let goes_on : started m ≡ some m = ap (started_at m) here in
    rw (goes_on, mread)
      (Ends-bind (Read-Got m m len (unread b ++ contents after) refl) (
        mread_loop-Read (len + 1) m len [] (unread b ++ contents after) (omega arith)
          (in_block front b after whole here low flag fresh)))

unread_block-Fresh : (blocks : List DataBlock) → Filled blocks → Fresh (map unread_block blocks)
unread_block-Fresh [] h = tt
unread_block-Fresh (b ∷ blocks) (some_byte, rest) =
    (refl, some_byte, unread_block-Fresh blocks rest)

-- After mseek the reader stands before all bytes of a file without an empty block.
pub mseek-Reads : (m : Mfile) → Filled m.head → Reads (mseek m) (contents m.head)
unfolding mseek
mseek-Reads m filled =
    subst (Reads (mseek m)) (contents-unread_block m.head)
      (at_start refl refl (unread_block-Fresh m.head filled))
