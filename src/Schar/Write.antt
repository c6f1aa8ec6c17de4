-- ===== src/Schar/Write.antt =====
-- schar_copyb, schar_catb and the case changes: what the string holds afterwards.
use code_notebook.Base.{
  ℕ, ◌+◌, ◌≤◌, ◌<◌, ◌≡◌, sym, ◌∙◌, List, ◌++◌, Option, none, some, arith, ◌==◌, if◌then◌else◌,
  length, set, take, length-take, length-set,
}
use code_notebook.Base.Cells.{take-set, get_or-set, set-beyond}
use code_notebook.Block.{memcpy-ok, copied, length-copied, take-copied}
use code_notebook.Run.{ok, Ends, ends, Ends-bind}
use code_notebook.Schar.{Schar, failed, Malloc, u32, terminate, written, copyb, catb}
use code_notebook.Schar.Grow.{
  IsMalloc, IsBlock, IsValid, content, max_len, Refuses, Ready, ready-Ready, roomy, refused,
}

-- The answers of a write: the text is held, or malloc refused and nothing is lost.
pub data Wrote (malloc : Malloc) (x : Schar) (text : List ℕ) : ℕ × Schar → Type 0 where
  held : (x' : Schar) → IsValid x' → content x' ≡ text → Wrote malloc x text (0, x')
  unwritten :
      (x' : Schar)
      → Refuses malloc
      → IsValid x'
      → content x' ≡ content x
      → Wrote malloc x text (1, x')

-- A block with `n` bytes written at `len` and a zero behind them.
abbrev put : List ℕ → ℕ → List ℕ → ℕ → List ℕ
put b len src n = set (copied b len src n) (len + n) 0

module _ (b : List ℕ) (len : ℕ) (src : List ℕ) (n size : ℕ) where
  take-put :
      n ≤ length src
      → len + n ≤ length b
      → take (len + n) (put b len src n) ≡ take len b ++ take n src
  take-put p q =
      let whole = copied b len src n in
      let short : length (take (len + n) whole) ≤ len + n =
        omega (arith, length-take (len + n) whole) in
      take-set (len + n) whole (len + n) 0
      ∙ set-beyond (take (len + n) whole) (len + n) 0 short
      ∙ take-copied b len src n p q

  put-IsBlock :
      n ≤ length src
      → len + n < size
      → size ≤ length b
      → IsBlock (some (put b len src n)) (len + n) size
  put-IsBlock p q room =
      let whole = copied b len src n in
      let width = length-copied b len src n p (omega arith) in
      (
        q,
        omega (arith, width, length-set whole (len + n) 0),
        ground (arith, get_or-set whole (len + n) (len + n) 0 0, width),
      )

  terminate-put :
      n ≤ length src
      → len + n < length b
      → terminate (copied b len src n) (len + n) ≡ ok (put b len src n)
  unfolding terminate
  terminate-put p q = ground (arith, length-copied b len src n p (omega arith))

-- The end of schar_copyb and of schar_catb stays inside the block.
written-Wrote :
    (malloc : Malloc) (x : Schar) (b src : List ℕ) (len n used size : ℕ)
    → n ≤ length src
    → used + n < size
    → size ≤ length b
    → used + n < max_len
    → Ends
        (Wrote malloc x (take used b ++ take n src))
        (written used src n (record { s = some b; len = len; size = size }))
unfolding written
written-Wrote malloc x b src len n used size h fits room small =
    let no_wrap : u32 (used + n) ≡ used + n = omega arith in
    rw
      (
        no_wrap,
        memcpy-ok b used src n h (omega arith),
        terminate-put b used src n size h (omega arith),
      )
      (ends (
        held (record { s = some (put b used src n); len = used + n; size = size })
          (put-IsBlock b used src n size h fits room) (take-put b used src n size h (omega arith))))

module _ (malloc : Malloc) (m : IsMalloc malloc) (src : List ℕ) (n : ℕ) (h : n ≤ length src) where
  copy-Ready :
      (x : Schar)
      → x.len + n + 1 < max_len
      → (answer : ℕ × Schar) → Ready malloc x (n + 1) answer
      → Ends
          (Wrote malloc x (take n src))
          (if answer.0 == failed then ok (failed, answer.1) else written 0 src n answer.1)
  copy-Ready x small answer (roomy b len size e fits room same) =
      written-Wrote malloc x b src len n 0 size h (omega arith) room (omega arith)
  copy-Ready x small answer (refused x' r v same) = ends (unwritten x' r v same)

  -- schar_copyb of n bytes that are there, on a valid string with len + n + 1 < 2 ^ 31, stays
  -- inside the blocks and leaves a valid string: it holds these n bytes, or, with 1 and only when
  -- malloc has refused, what it held before.
  pub copyb-Wrote :
      (x : Schar)
      → x.len + n + 1 < max_len
      → IsValid x
      → Ends (Wrote malloc x (take n src)) (copyb malloc x src n)
  unfolding copyb
  copyb-Wrote x small v =
      let no_wrap : u32 (n + 1) ≡ n + 1 = omega arith in
      rw no_wrap (
        Ends-bind (copy-Ready x small)
          (ready-Ready malloc m x.s x.len x.size (n + 1) (omega arith) v))

  cat-Ready :
      (x : Schar)
      → x.len + n + 1 < max_len
      → (answer : ℕ × Schar) → Ready malloc x (n + 1) answer
      → Ends (Wrote malloc x (content x ++ take n src)) (
          if answer.0 == failed then ok (failed, answer.1) else written answer.1.len src n answer.1)
  cat-Ready x small answer (roomy b len size e fits room same) =
      rw (sym same) (written-Wrote malloc x b src len n len size h (omega arith) room (omega arith))
  cat-Ready x small answer (refused x' r v same) = ends (unwritten x' r v same)

  catb_parts :
      (P : Option (List ℕ)) (len size : ℕ)
      → len + n + 1 < max_len
      → IsBlock P len size
      → Ends
          (Wrote malloc
            (record { s = P; len = len; size = size })
            (content (record { s = P; len = len; size = size }) ++ take n src))
          (catb malloc (record { s = P; len = len; size = size }) src n)
  unfolding catb
  catb_parts none len size small v =
      copyb-Wrote (record { s = none; len = len; size = size }) small v
  catb_parts (some b) len size small v =
      let no_wrap : u32 (n + 1) ≡ n + 1 = omega arith in
      rw no_wrap (
        Ends-bind (cat-Ready (record { s = some b; len = len; size = size }) small)
          (ready-Ready malloc m (some b) len size (n + 1) (omega arith) v))

  -- schar_catb of n bytes that are there, on a valid string with len + n + 1 < 2 ^ 31, stays
  -- inside the blocks and leaves a valid string: it holds what it held followed by these n bytes,
  -- or, with 1 and only when malloc has refused, what it held before.
  pub catb-Wrote :
      (x : Schar)
      → x.len + n + 1 < max_len
      → IsValid x
      → Ends (Wrote malloc x (content x ++ take n src)) (catb malloc x src n)
  catb-Wrote x small v = catb_parts x.s x.len x.size small v
