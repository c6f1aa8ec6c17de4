-- ===== src/Tgrep/Search/Blocks.antt =====
-- c/app/tgrep/tgrep.c: a part of a file that is read in blocks is searched as one text.
use mathlib.Core.List.{append_assoc, append-nil}
use code_notebook.Base.{
  ℕ, ◌+◌, ◌-◌, ◌≤◌, ◌<◌, ◌≡◌, refl, sym, ap, ◌∙◌, Bool, true, false, inl, inr, List, [], ◌∷◌, ◌++◌,
  some, map, arith, length, length-append, ltb, ◌==◌, Bool-cases,
}
use code_notebook.Base.Slices.{take-all}
use code_notebook.Run.{Run, ok}
use code_notebook.Tgrep.Times.Spelled.{Without}
use code_notebook.Tgrep.Search.{
  Matcher, after_newline, grep_str, print_lines, on_block, smaller, search_blocks, search_part,
}

module _ (strstr strcasestr : List ℕ → List ℕ → Bool) (m : Matcher) where
  abbrev prints : List ℕ → List ℕ → List ℕ × List ℕ
  prints = print_lines strstr strcasestr m

  print_lines-append :
      (line a b : List ℕ)
      → prints line (a ++ b)
        ≡ ((prints line a).0 ++ (prints (prints line a).1 b).0, (prints (prints line a).1 b).1)
  unfolding print_lines
  print_lines-append line [] b = refl
  print_lines-append line (c ∷ a) b = elim (Bool-cases (c == b'\n')) [
    | inl e ↦
        rw (e, print_lines)
          (rw (print_lines-append [] a b) (
            let (o, r) = prints [] a in
            ap (λ (t : List ℕ). (t, (prints r b).1))
              (sym (append_assoc (grep_str strstr strcasestr m line) o (prints r b).0))))
    | inr e ↦ rw (e, print_lines) (print_lines-append (line ++ c ∷ []) a b)
  ]

  -- Bytes without a line feed are kept.
  print_lines-kept : (line a : List ℕ) → Without b'\n' a → prints line a ≡ ([], line ++ a)
  unfolding print_lines
  print_lines-kept line [] h = ap (λ (t : List ℕ). ([], t)) (sym (append-nil line))
  print_lines-kept line (c ∷ a) h =
      rw (h.0, print_lines)
        (print_lines-kept (line ++ c ∷ []) a h.1
          ∙ ap (λ (t : List ℕ). ([], t)) (append_assoc line (c ∷ []) a))

  Without-snoc :
      (line : List ℕ) (c : ℕ)
      → Without b'\n' line
      → (c == b'\n') ≡ false
      → Without b'\n' (line ++ c ∷ [])
  Without-snoc [] c h e = (e, tt)
  Without-snoc (d ∷ line) c h e = (h.0, Without-snoc line c h.1 e)

  print_lines-Without : (line a : List ℕ) → Without b'\n' line → Without b'\n' (prints line a).1
  unfolding print_lines
  print_lines-Without line [] h = h
  print_lines-Without line (c ∷ a) h = elim (Bool-cases (c == b'\n')) [
    | inl e ↦ rw (e, print_lines) (print_lines-Without [] a tt)
    | inr e ↦ rw (e, print_lines) (print_lines-Without (line ++ c ∷ []) a (Without-snoc line c h e))
  ]

  -- What is kept of a text comes first when more bytes follow.
  prints-again :
      (a b : List ℕ)
      → (prints [] (a ++ b)).0 ≡ (prints [] a).0 ++ (prints [] ((prints [] a).1 ++ b)).0
  prints-again a b =
      let r = (prints [] a).1 in
      let kept = print_lines-kept [] r (print_lines-Without [] a tt) in
      ap (λ (t : List ℕ × List ℕ). t.0) (print_lines-append [] a b)
      ∙ ap (λ (t : List ℕ). (prints [] a).0 ++ t)
          (sym (
            ap (λ (t : List ℕ × List ℕ). t.0) (print_lines-append [] r b)
            ∙ ap (λ (t : List ℕ × List ℕ). t.0 ++ (prints t.1 b).0) kept))

  abbrev flat : List (List ℕ) → List ℕ
  flat [] = []
  flat (block ∷ blocks) = block ++ flat blocks

  -- Something is kept when more blocks follow.
  abbrev pub Kept : List (List ℕ) → List ℕ → Type 0
  Kept [] kept = Unit
  Kept (block ∷ blocks) kept = 0 < length kept

  -- The blocks that read gives behind a block of which `kept` is left: none empty, none longer than
  -- was asked for, with room in the buffer, and none but the last ending at the end of a line.
  abbrev pub Steady : ℕ → ℕ → ℕ → List ℕ → List (List ℕ) → Type 0
  Steady capacity bufalloc total kept [] = total ≡ 0
  Steady capacity bufalloc total kept (block ∷ blocks) =
      (0 < length block)
      × (length block ≤ smaller total bufalloc)
      × (length kept + length block ≤ capacity)
      × Kept blocks (prints [] (kept ++ block)).1
      × Steady capacity (smaller total bufalloc) (total - length block)
          (prints [] (kept ++ block)).1 blocks

  block_lem :
      (capacity : ℕ) (block kept out : List ℕ) (next : List ℕ → List ℕ → Run (ℕ × List ℕ))
      → 0 < length block
      → 0 < length kept
      → length kept + length block ≤ capacity
      → on_block strstr strcasestr m capacity block kept out next
        ≡ next (prints [] (kept ++ block)).1 (out ++ (prints [] (kept ++ block)).0)
  block_lem capacity [] kept out next some_bytes some_kept room = elim some_bytes [ ]
  block_lem capacity (b ∷ block) [] out next some_bytes some_kept room = elim some_kept [ ]
  block_lem capacity (b ∷ block) (k ∷ kept) out next some_bytes some_kept room =
      let fits : ltb capacity (length (k ∷ kept) + length (b ∷ block)) ≡ false = ground arith in
      rw fits refl

  search_blocks_lem :
      (capacity : ℕ) (blocks : List (List ℕ)) (bufalloc total : ℕ) (kept out : List ℕ)
      → Kept blocks kept
      → Without b'\n' kept
      → Steady capacity bufalloc total kept blocks
      → search_blocks strstr strcasestr m capacity (map some blocks) bufalloc total kept out
        ≡ ok (1, out ++ (prints [] (kept ++ flat blocks)).0)
  unfolding search_blocks
  search_blocks_lem capacity [] bufalloc total kept out some_kept whole done =
      let zero_left : (total == 0) ≡ true = ground arith in
      rw zero_left (rw (append-nil kept, print_lines-kept [] kept whole, append-nil out) refl)
  search_blocks_lem capacity (block ∷ blocks) bufalloc total kept out some_kept whole steady =
      let (full, asked, room, more, later) = steady in
      let count = smaller total bufalloc in
      let left : (total == 0) ≡ false = ground arith in
      let p = (prints [] (kept ++ block)).0 in
      let r = (prints [] (kept ++ block)).1 in
      rw (left, take-all count block asked)
        (block_lem capacity block kept out
            (λ kept' out'.
              search_blocks strstr strcasestr m capacity (map some blocks) count
                (total - length block) kept' out')
            full some_kept room
          ∙ search_blocks_lem capacity blocks count (total - length block) r (out ++ p) more
              (print_lines-Without [] (kept ++ block) tt) later
          ∙ ap (λ (t : List ℕ). ok (1, t))
              (append_assoc out p (prints [] (r ++ flat blocks)).0
                ∙ ap (λ (t : List ℕ). out ++ t)
                    (sym (prints-again (kept ++ block) (flat blocks))
                      ∙ ap (λ (t : List ℕ). (prints [] t).0)
                          (append_assoc kept block (flat blocks)))))

  -- The lines of a text, each with its line feed.
  abbrev pub unlines : List (List ℕ) → List ℕ
  unlines [] = []
  unlines (line ∷ lines) = line ++ (b'\n' ∷ unlines lines)

  abbrev pub AllWithout : List (List ℕ) → Type 0
  AllWithout [] = Unit
  AllWithout (line ∷ lines) = Without b'\n' line × AllWithout lines

  abbrev pub grep_all : List (List ℕ) → List ℕ
  grep_all [] = []
  grep_all (line ∷ lines) = grep_str strstr strcasestr m line ++ grep_all lines

  prints-unlines :
      (lines : List (List ℕ)) (tail : List ℕ)
      → AllWithout lines
      → Without b'\n' tail
      → (prints [] (unlines lines ++ tail)).0 ≡ grep_all lines
  unfolding print_lines
  prints-unlines [] tail all whole =
      ap (λ (t : List ℕ × List ℕ). t.0) (print_lines-kept [] tail whole)
  prints-unlines (line ∷ lines) tail all whole =
      rw (append_assoc line (b'\n' ∷ unlines lines) tail) (
        ap (λ (t : List ℕ × List ℕ). t.0)
          (print_lines-append [] line (b'\n' ∷ (unlines lines ++ tail)))
        ∙ ap (λ (t : List ℕ × List ℕ). t.0 ++ (prints t.1 (b'\n' ∷ (unlines lines ++ tail))).0)
            (print_lines-kept [] line all.0)
        ∙ ap (λ (t : List ℕ). grep_str strstr strcasestr m line ++ t)
            (prints-unlines lines tail all.1 whole))

  after_newline_lem :
      (first body : List ℕ)
      → Without b'\n' first
      → after_newline (first ++ b'\n' ∷ body) ≡ some body
  unfolding after_newline
  after_newline_lem [] body h = refl
  after_newline_lem (c ∷ first) body h = rw (h.0, after_newline) (after_newline_lem first body h.1)

  first_block_lem :
      (capacity : ℕ) (first body : List ℕ) (next : List ℕ → List ℕ → Run (ℕ × List ℕ))
      → Without b'\n' first
      → length (first ++ b'\n' ∷ body) ≤ capacity
      → on_block strstr strcasestr m capacity (first ++ b'\n' ∷ body) [] [] next
        ≡ next (prints [] body).1 (prints [] body).0
  first_block_lem capacity [] body next whole room =
      let room' : length (b'\n' ∷ body) ≤ capacity = room in
      let fits : ltb capacity (length {A = ℕ} [] + length (b'\n' ∷ body)) ≡ false = ground arith in
      rw (fits, after_newline_lem [] body tt) refl
  first_block_lem capacity (c ∷ first) body next whole room =
      let fits : ltb capacity (length {A = ℕ} [] + length (c ∷ first ++ b'\n' ∷ body)) ≡ false =
        ground arith in
      rw (fits, after_newline_lem (c ∷ first) body whole) refl

  -- What the loop of do_search prints is what grep_str prints for each line behind the first of the part, in
  -- order, and it returns 1: the first block read holds the end of the first line, the later ones are
  -- not empty, fit in the buffer, and begin inside a line.
  pub search_part_lem :
      (capacity start end : ℕ) (first body : List ℕ) (blocks lines : List (List ℕ)) (tail : List ℕ)
      → Without b'\n' first
      → length (first ++ b'\n' ∷ body) ≤ capacity
      → length (first ++ b'\n' ∷ body) ≤ smaller (end - start) capacity
      → Kept blocks (prints [] body).1
      → Steady capacity
          (smaller (end - start) capacity)
          ((end - start) - length (first ++ b'\n' ∷ body))
          (prints [] body).1
          blocks
      → body ++ flat blocks ≡ unlines lines ++ tail
      → AllWithout lines
      → Without b'\n' tail
      → search_part strstr strcasestr m capacity
          (some (first ++ b'\n' ∷ body) ∷ map some blocks)
          start
          end
        ≡ ok (1, grep_all lines)
  unfolding search_part search_blocks
  search_part_lem capacity start end first body blocks lines tail whole room asked more steady text
        all open_end =
      let block = first ++ b'\n' ∷ body in
      let count = smaller (end - start) capacity in
      let some_bytes : 0 < length block = rw (length-append first (b'\n' ∷ body)) (omega arith) in
      let left : (end - start == 0) ≡ false = ground arith in
      let p = (prints [] body).0 in
      let r = (prints [] body).1 in
      rw (left, take-all count block asked)
        (first_block_lem capacity first body
            (λ kept' out'.
              search_blocks strstr strcasestr m capacity (map some blocks) count
                ((end - start) - length block) kept' out')
            whole room
          ∙ search_blocks_lem capacity blocks count ((end - start) - length block) r p more
              (print_lines-Without [] body tt) steady
          ∙ ap (λ (t : List ℕ). ok (1, t))
              (sym (prints-again body (flat blocks))
                ∙ ap (λ (t : List ℕ). (prints [] t).0) text
                ∙ prints-unlines lines tail all open_end))
