-- ===== src/Prioq/Down.antt =====
-- The loop of prioq_del_min. The moved entry stays readable behind the heap, at `n`.
use mathlib.Core.List.Perm
use code_notebook.Base.{
  ℕ, zero, suc, ◌+◌, ◌-◌, ◌≤◌, ◌<◌, ◌≡◌, List, arith, ltb, leb, ◌∙◌, ◌⊎◌, if◌then◌else◌, length,
  set, length-set, Bool-cases, inl, inr,
}
use code_notebook.Base.Cells.{get_or-set}
use code_notebook.Run.{Ends, Ends-weaken}
use code_notebook.Prioq.{Elt, parent, down_loop}
use code_notebook.Prioq.Order.{at, key, blank, IsOpen, Below, shift-perm}
use code_notebook.Prioq.Up.{store-Placed, load-ok, store-ok, Placed}

-- `j` is a child of `i`, and the smaller one.
record IsSmaller (b : List Elt) (i j n : ℕ) : Type 0 where
  child : parent j ≡ i
  deeper : i < j
  within : j ≤ n
  left : key b j ≤ key b (i + i + 1)
  right : key b j ≤ key b (i + i + 2)

abbrev smaller : List Elt → ℕ → ℕ
smaller b i = if leb (key b (i + i + 2 - 1)) (key b (i + i + 2)) then i + i + 2 - 1 else i + i + 2

smaller-IsSmaller : (b : List Elt) (i n : ℕ) → i + i + 2 ≤ n → IsSmaller b i (smaller b i) n
smaller-IsSmaller b i n h =
    let e : i + i + 2 - 1 ≡ i + i + 1 = omega arith in
    rw e (elim (Bool-cases (leb (key b (i + i + 1)) (key b (i + i + 2)))) [
      | inl le ↦ rw le (record {
        child = omega arith;
        deeper = omega arith;
        within = omega arith;
        left = omega arith;
        right = ground arith;
      })
      | inr gt ↦ rw gt (record {
        child = omega arith;
        deeper = omega arith;
        within = omega arith;
        left = ground arith;
        right = omega arith;
      })
    ])

two_children : (c i : ℕ) → 0 < c → parent c ≡ i → (c ≡ i + i + 1) ⊎ (c ≡ i + i + 2)
two_children c i p q = omega arith

least_child :
    (b : List Elt) (i j n : ℕ)
    → IsSmaller b i j n
    → (c : ℕ) → 0 < c
    → parent c ≡ i
    → key b j ≤ key b c
least_child b i j n s c p q = elim (two_children c i p q) [
  | inl e ↦ rw e s.left
  | inr e ↦ rw e s.right
]

module _ (b : List Elt) (i j n : ℕ) (s : IsSmaller b i j n) (inside : i < length b) where
  -- Moving the smaller child up into the open cell opens the cell of the child.
  down-IsOpen :
      j < n
      → n < length b
      → IsOpen n b i
      → key b j < key b n
      → IsOpen n (set b i (at b j)) j
        × (0 < j → key (set b i (at b j)) (parent j) ≤ key (set b i (at b j)) n)
        × (at (set b i (at b j)) n ≡ at b n)
  down-IsOpen lt fits o less =
      let read = λ (c : ℕ). get_or-set b i c (at b j) blank inside in
      let child = s.child in
      let deeper = s.deeper in
      (
        record {
          apart = λ c p q r t. ground (
            arith,
            read c,
            read (parent c),
            o.apart c p q,
            o.across j (omega arith) lt child,
            least_child b i j n s c p,
          );
          across = λ c p q r t. ground (arith, read c, read (parent j), o.apart c p q);
        },
        (λ p. ground (arith, read (parent j), read n)),
        ground (arith, read n),
      )

pub down_loop-Placed :
    (fuel n : ℕ) (b : List Elt) (i : ℕ)
    → n - i < fuel
    → i ≤ n
    → n < length b
    → IsOpen n b i
    → (0 < i → key b (parent i) ≤ key b n)
    → Ends (Placed n (set b i (at b n))) (down_loop fuel b i n)
unfolding down_loop
down_loop-Placed zero n b i f le fits o above = absurd (omega arith)
down_loop-Placed (suc fuel) n b i f le fits o above =
    let inside : i < length b = omega arith in
    let kept =
      λ (below : Below n b i (key b n)). store-Placed n b i (at b n) inside o above below in
    elim (Bool-cases (ltb n (i + i + 2))) [
      | inl stop ↦ rw (stop, load-ok b n fits) (kept (λ c p q r. absurd (ground arith)))
      | inr more ↦
          let j = smaller b i in
          let s : IsSmaller b i j n = smaller-IsSmaller b i n (ground arith) in
          let within = s.within in
          let deeper = s.deeper in
          rw
            (
              more,
              load-ok b (i + i + 2 - 1) (ground arith),
              load-ok b (i + i + 2) (ground arith),
              load-ok b n fits,
              load-ok b j (omega arith),
            )
            (elim (Bool-cases (leb (key b n) (key b j))) [
              | inl stop ↦ rw stop (kept (λ c p q r. ground (arith, least_child b i j n s c p)))
              | inr sink ↦
                  let less : key b j < key b n = ground arith in
                  let lt : j < n = ground arith in
                  let (o', above', last) = down-IsOpen b i j n s inside lt fits o less in
                  let b' = set b i (at b j) in
                  let inner =
                    down_loop-Placed fuel n b' j (omega arith) within (rw length-set fits) o'
                      above' in
                  rw (sink, store-ok b i (at b j) inside)
                    (Ends-weaken
                      (λ r p. record {
                        heap = p.heap;
                        same = Perm.trans p.same (
                            rw last (
                              shift-perm n b j i (at b n) (omega arith) lt (omega arith)
                                (omega arith)));
                        room =
                            p.room
                            ∙ omega (
                              arith,
                              length-set b' j (at b' n),
                              length-set b i (at b j),
                              length-set b i (at b n),
                            );
                      })
                      inner)
            ])
    ]
