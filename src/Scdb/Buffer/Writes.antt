-- ===== src/Scdb/Buffer/Writes.antt =====
-- The bytes that the buffer takes reach `op` in order, or `op` has failed.
use code_notebook.Base.{
  ℕ, zero, suc, ◌+◌, ◌-◌, ◌≤◌, ◌<◌, ◌≡◌, refl, sym, ap, ◌∙◌, Bool, true, false, List, [], ◌∷◌, ◌++◌,
  arith, ltb, ◌==◌, if◌then◌else◌, length, take, drop, length-take, length-drop, take-append-drop,
  inl, inr, Bool-cases, ◌⊎◌,
}
use mathlib.Core.List.{append_assoc, append-nil}
use code_notebook.Block.{memcpy, memcpy-ok, copied, length-copied, take-copied}
use code_notebook.Run.{ok, ◌>>=◌, Ends, ends, Ends-bind, Ends-weaken}
use code_notebook.Scdb.Buffer.{
  Answer, moved, interrupted, broken, Written, allwrite, Buffer, send, flush, putalign_loop,
  putalign,
}

-- How many of the answers move bytes or fail: the calls that are not merely repeated.
unfoldable pub credit : List Answer → ℕ
credit [] = 0
credit (interrupted ∷ answers) = credit answers
credit (broken ∷ answers) = suc (credit answers)
credit (moved more ∷ answers) = suc (credit answers)

unfoldable pub breaks : List Answer → Bool
breaks [] = false
breaks (broken ∷ answers) = true
breaks (interrupted ∷ answers) = breaks answers
breaks (moved more ∷ answers) = breaks answers

-- All bytes were taken, each call used up at most one answer for a byte; or some answer was a
-- failure, and the bytes that were taken come first.
pub data Sent (answers : List Answer) (buf : List ℕ) : Written → Type 0 where
  all_sent :
      (left : List Answer)
      → credit answers ≤ credit left + length buf
      → (breaks left ≡ true → breaks answers ≡ true)
      → Sent answers buf (record { status = 0; bytes = buf; answers = left })
  cut_short :
      (sent rest : List ℕ) (left : List Answer)
      → breaks answers ≡ true
      → buf ≡ sent ++ rest
      → Sent answers buf (record { status = 1; bytes = sent; answers = left })

moved-Sent :
    (more : ℕ) (answers : List Answer) (b : ℕ) (buf : List ℕ) (w : Written)
    → Sent answers (drop more buf) w
    → Ends
        (Sent (moved more ∷ answers) (b ∷ buf))
        (ok (record w { bytes = (b ∷ take more buf) ++ w.bytes }))
unfolding credit breaks
moved-Sent more answers b buf w (all_sent left spent kept) =
    let whole : (b ∷ take more buf) ++ drop more buf ≡ b ∷ buf =
      ap (◌∷◌ b) (take-append-drop more buf) in
    rw whole (ends (all_sent left (omega (arith, length-drop more buf)) kept))
moved-Sent more answers b buf w (cut_short sent rest left bad split) = ends (
    cut_short ((b ∷ take more buf) ++ sent) rest left bad (
      ap (◌∷◌ b) (
        sym (take-append-drop more buf)
        ∙ ap (◌++◌ (take more buf)) split
        ∙ sym (append_assoc (take more buf) sent rest))))

again-Sent :
    (answers : List Answer) (buf : List ℕ) (w : Written)
    → Sent answers buf w
    → Sent (interrupted ∷ answers) buf w
unfolding credit breaks
again-Sent answers buf w (all_sent left spent kept) = all_sent left spent kept
again-Sent answers buf w (cut_short sent rest left bad split) = cut_short sent rest left bad split

pub allwrite-Sent :
    (answers : List Answer) (buf : List ℕ)
    → length buf ≤ credit answers
    → Ends (Sent answers buf) (allwrite answers buf)
unfolding allwrite credit breaks
allwrite-Sent answers [] h = ends (all_sent answers (omega arith) (λ e. e))
allwrite-Sent [] (b ∷ buf) h = absurd (omega arith)
allwrite-Sent (interrupted ∷ answers) (b ∷ buf) h =
    Ends-weaken (again-Sent answers (b ∷ buf)) (allwrite-Sent answers (b ∷ buf) h)
allwrite-Sent (broken ∷ answers) (b ∷ buf) h = ends (cut_short [] (b ∷ buf) answers refl refl)
allwrite-Sent (moved more ∷ answers) (b ∷ buf) h =
    Ends-bind (moved-Sent more answers b buf)
      (allwrite-Sent answers (drop more buf) (omega (arith, length-drop more buf)))

-- Everything that was put: what `op` has taken, and then what the block holds.
unfoldable pub held : Buffer → List ℕ
held s = s.sent ++ take s.p s.x

abbrev pub IsValid : Buffer → Type 0
IsValid s = (s.p ≤ s.n) × (0 < s.n) × (s.n ≤ length s.x)

-- A call that puts `bytes`: they stand behind what was put before, in a valid buffer; or an answer
-- was a failure, and what `op` has taken is a beginning of it all.
pub data Put (s : Buffer) (bytes : List ℕ) : ℕ × Buffer → Type 0 where
  put :
      (s' : Buffer)
      → IsValid s'
      → held s' ≡ held s ++ bytes
      → credit s.answers + s'.p ≤ credit s'.answers + s.p + length bytes
      → (breaks s'.answers ≡ true → breaks s.answers ≡ true)
      → Put s bytes (0, s')
  cut :
      (s' : Buffer) (rest : List ℕ)
      → breaks s.answers ≡ true
      → held s ++ bytes ≡ s'.sent ++ rest
      → Put s bytes (1, s')

-- A call that hands over what the block holds.
pub data Flushed (s : Buffer) : ℕ × Buffer → Type 0 where
  flushed :
      (s' : Buffer)
      → (s'.p ≡ 0) × (s'.n ≡ s.n) × (length s'.x ≡ length s.x)
      → s'.sent ≡ held s
      → credit s.answers ≤ credit s'.answers + s.p
      → (breaks s'.answers ≡ true → breaks s.answers ≡ true)
      → Flushed s (0, s')
  unflushed :
      (s' : Buffer) (rest : List ℕ)
      → breaks s.answers ≡ true
      → held s ≡ s'.sent ++ rest
      → Flushed s (1, s')

flush_sent :
    (s : Buffer) (w : Written)
    → Sent s.answers (take s.p s.x) w
    → Ends
        (Flushed s)
        (ok (w.status, record s { p = 0; sent = s.sent ++ w.bytes; answers = w.answers }))
unfolding held
flush_sent s w (all_sent left spent kept) =
    ends (flushed _ (refl, refl, refl) refl (omega (arith, length-take s.p s.x)) kept)
flush_sent s w (cut_short sent rest left bad split) =
    ends (unflushed _ rest bad (ap (◌++◌ s.sent) split ∙ sym (append_assoc s.sent sent rest)))

pub flush-Flushed : (s : Buffer) → s.p ≤ credit s.answers → Ends (Flushed s) (flush s)
unfolding flush send held
flush-Flushed s h = elim (Bool-cases (s.p == 0)) [
  | inl empty ↦
      let none_left : s.p ≡ 0 = ground arith in
      rw empty (
        ends (
          flushed s (none_left, refl, refl)
            (sym (append-nil s.sent) ∙ ap (λ (k : ℕ). s.sent ++ take k s.x) (sym none_left))
            (omega arith) (λ e. e)))
  | inr some_left ↦ rw some_left (
      Ends-bind (flush_sent s)
        (allwrite-Sent s.answers (take s.p s.x) (omega (arith, length-take s.p s.x))))
]

take-all : (buf : List ℕ) → take (length buf) buf ≡ buf
take-all [] = refl
take-all (b ∷ buf) = ap (◌∷◌ b) (take-all buf)

-- `k` bytes copied behind the others.
held-copied :
    (s : Buffer) (buf : List ℕ) (k : ℕ)
    → k ≤ length buf
    → s.p + k ≤ length s.x
    → s.sent ++ take (s.p + k) (copied s.x s.p buf k) ≡ held s ++ take k buf
unfolding held
held-copied s buf k h fits =
    ap (◌++◌ s.sent) (take-copied s.x s.p buf k h fits)
    ∙ sym (append_assoc s.sent (take s.p s.x) (take k buf))

put_rest-Put :
    (s : Buffer) (buf : List ℕ)
    → IsValid s
    → s.p + length buf ≤ s.n
    → Ends
        (Put s buf)
        (memcpy s.x s.p buf (length buf) >>= λ x. ok (0, record s { x = x; p = s.p + length buf }))
unfolding held
put_rest-Put s buf valid fits =
    let (below, some_room, room) = valid in
    rw (memcpy-ok s.x s.p buf (length buf) (omega arith) (omega arith)) (
      ends (
        put _ (fits, some_room, omega (arith, length-copied s.x s.p buf (length buf)))
          (held-copied s buf (length buf) (omega arith) (omega arith)
            ∙ ap (◌++◌ (held s)) (take-all buf))
          (omega arith) (λ e. e)))

-- What a turn of the loop leaves to put after the flush.
after_turn :
    (s s' : Buffer) (buf : List ℕ) (k : ℕ)
    → held s' ≡ held s ++ take k buf
    → credit s.answers + s'.p ≤ credit s'.answers + s.p + k
    → k ≤ length buf
    → (breaks s'.answers ≡ true → breaks s.answers ≡ true)
    → (result : ℕ × Buffer) → Put s' (drop k buf) result
    → Put s buf result
after_turn s s' buf k same spent le kept result (put t valid text spent' kept') =
    put t valid
      (text
        ∙ ap (λ (a : List ℕ). a ++ drop k buf) same
        ∙ append_assoc (held s) (take k buf) (drop k buf)
        ∙ ap (◌++◌ (held s)) (take-append-drop k buf))
      (omega (arith, length-drop k buf)) (λ e. kept (kept' e))
after_turn s s' buf k same spent le kept result (cut t rest bad split) = cut t rest (kept bad) (
    ap (◌++◌ (held s)) (sym (take-append-drop k buf))
    ∙ sym (append_assoc (held s) (take k buf) (drop k buf))
    ∙ ap (λ (a : List ℕ). a ++ drop k buf) (sym same)
    ∙ split)

-- The bytes before and behind the cut at `k`.
pub split_put :
    (s : Buffer) (buf : List ℕ) (k : ℕ) → held s ++ buf ≡ (held s ++ take k buf) ++ drop k buf
split_put s buf k =
    ap (◌++◌ (held s)) (sym (take-append-drop k buf))
    ∙ sym (append_assoc (held s) (take k buf) (drop k buf))

module _ (fuel : ℕ) (s : Buffer) (buf : List ℕ) (k : ℕ) (le : k ≤ length buf)
    (fits : s.p + k ≤ length s.x) where
  abbrev filled : Buffer
  filled = record s { x = copied s.x s.p buf k; p = s.p + k }

  turn-Put :
      ((s' : Buffer)
        → (s'.p ≡ 0) × (s'.n ≡ s.n) × (length s'.x ≡ length s.x)
        → credit s.answers ≤ credit s'.answers + s.p + k
        → Ends (Put s' (drop k buf)) (putalign_loop fuel s' (drop k buf)))
      → (a : ℕ × Buffer) → Flushed filled a
      → Ends (Put s buf) (if a.0 == 0 then putalign_loop fuel a.1 (drop k buf) else ok (a.0, a.1))
  unfolding held
  turn-Put next a (flushed s' (p, n, x) text spent kept) =
      let nothing : held s' ≡ s'.sent =
        ap (λ (i : ℕ). s'.sent ++ take i s'.x) p ∙ append-nil s'.sent in
      Ends-weaken
        (after_turn s s' buf k (nothing ∙ text ∙ held-copied s buf k le fits) (omega arith) le kept)
        (next s' (p, n, x ∙ length-copied s.x s.p buf k le fits) (omega arith))
  turn-Put next a (unflushed s' rest bad split) = ends (
      cut s' (rest ++ drop k buf) bad (
        split_put s buf k
        ∙ ap (λ (a : List ℕ). a ++ drop k buf) (sym (held-copied s buf k le fits) ∙ split)
        ∙ append_assoc s'.sent rest (drop k buf)))

-- A turn costs one unit, and only the first one may copy nothing.
putalign_loop-Put :
    (fuel : ℕ) (s : Buffer) (buf : List ℕ)
    → IsValid s
    → s.p + length buf ≤ credit s.answers
    → (length buf + 1 < fuel) ⊎ ((s.p ≡ 0) × (length buf < fuel))
    → Ends (Put s buf) (putalign_loop fuel s buf)
unfolding putalign_loop
putalign_loop-Put zero s buf valid patience enough = absurd (ground arith)
putalign_loop-Put (suc fuel) s buf valid patience enough =
    elim (Bool-cases (ltb (s.n - s.p) (length buf))) [
      | inr last ↦ rw last (put_rest-Put s buf valid (ground arith))
      | inl full ↦
          let k = s.n - s.p in
          let (below, some_room, room) = valid in
          let short : k < length buf = ground arith in
          let next : (s' : Buffer)
              → (s'.p ≡ 0) × (s'.n ≡ s.n) × (length s'.x ≡ length s.x)
              → credit s.answers ≤ credit s'.answers + s.p + k
              → Ends (Put s' (drop k buf)) (putalign_loop fuel s' (drop k buf)) =
            λ s' (p, n, x) spent.
              putalign_loop-Put fuel s' (drop k buf) (omega arith, omega arith, omega arith)
                (omega (arith, length-drop k buf)) (inr (p, grind (arith, length-drop k buf))) in
          rw (full, memcpy-ok s.x s.p buf k (omega arith) (omega arith))
            (Ends-bind (turn-Put fuel s buf k (omega arith) (omega arith) next)
              (flush-Flushed (filled fuel s buf k (omega arith) (omega arith)) (omega arith)))
    ]

-- buffer_putalign on a valid buffer, when the calls of `op` are not interrupted for ever (as many
-- of them move bytes or fail as there are bytes in the block and in `buf`), ends inside the block:
-- with 0 every byte stands in order behind those put before, taken by `op` or in the valid block;
-- with -1 `op` has failed, and what it has taken is a beginning of these bytes.
pub putalign-Put :
    (s : Buffer) (buf : List ℕ)
    → IsValid s
    → s.p + length buf ≤ credit s.answers
    → Ends (Put s buf) (putalign s buf)
unfolding putalign
putalign-Put s buf valid patience =
    putalign_loop-Put (length buf + 2) s buf valid patience (inl (omega arith))
