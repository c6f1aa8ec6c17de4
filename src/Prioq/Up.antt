-- ===== src/Prioq/Up.antt =====
-- The loop of prioq_insert.
use mathlib.Core.List.{Perm}
use mathlib.Core.List.Perm
use code_notebook.Base.{
  ℕ, zero, suc, ◌≤◌, ◌<◌, ◌≡◌, refl, List, arith, leb, ◌==◌, ◌∙◌, length, set, take, length-set,
  Bool-cases, inl, inr,
}
use code_notebook.Base.Cells.{get_or-set, get_elem?-get_or}
use code_notebook.Run.{ok, Ends, ends, Ends-weaken}
use code_notebook.Prioq.{Elt, parent, load, store, up_loop}
use code_notebook.Prioq.Order.{at, key, blank, IsHeap, IsOpen, Below, fill, shift-perm}

pub load-ok : (b : List Elt) (i : ℕ) → i < length b → load b i ≡ ok (at b i)
unfolding load
load-ok b i h = rw (get_elem?-get_or b i blank h)

pub store-ok : (b : List Elt) (i : ℕ) (e : Elt) → i < length b → store b i e ≡ ok (set b i e)
unfolding store
store-ok b i e h = ground arith

-- What the loops leave: a heap of the first `n` entries of `start`, in a block of the same size.
pub record Placed (n : ℕ) (start b : List Elt) : Type 0 where
  pub heap : IsHeap n b
  pub same : Perm (take n b) (take n start)
  pub room : length b ≡ length start

-- The last write of either loop.
pub store-Placed :
    (n : ℕ) (b : List Elt) (j : ℕ) (e : Elt)
    → j < length b
    → IsOpen n b j
    → (0 < j → key b (parent j) ≤ e.dt)
    → Below n b j e.dt
    → Ends (Placed n (set b j e)) (store b j e)
store-Placed n b j e inside o above below =
    rw (store-ok b j e inside)
      (ends (record { heap = fill n b j e inside o above below; same = Perm.rfl; room = refl }))

-- Moving a parent down into the open cell opens the cell of the parent.
up-IsOpen :
    (n : ℕ) (b : List Elt) (j d : ℕ)
    → 0 < j
    → j < n
    → j < length b
    → IsOpen n b j
    → d < key b (parent j)
    → Below n b j d
    → IsOpen n (set b j (at b (parent j))) (parent j)
      × Below n (set b j (at b (parent j))) (parent j) d
up-IsOpen n b j d pos lt inside o less below =
    let read = λ (c : ℕ). get_or-set b j c (at b (parent j)) blank inside in
    (
      record {
        apart = λ c p q r s. ground (arith, read c, read (parent c), o.apart c p q, o.across c p q);
        across = λ c p q r s.
            ground (arith, read c, read (parent (parent j)), o.apart c p q, o.apart (parent j) s);
      },
      λ c p q r. ground (arith, read c, o.apart c p q),
    )

pub up_loop-Placed :
    (fuel n : ℕ) (b : List Elt) (j : ℕ) (e : Elt)
    → j < fuel
    → j < n
    → n ≤ length b
    → IsOpen n b j
    → Below n b j e.dt
    → Ends (Placed n (set b j e)) (up_loop fuel b j e)
unfolding up_loop
up_loop-Placed zero n b j e f lt room o below = absurd (omega arith)
up_loop-Placed (suc fuel) n b j e f lt room o below = elim (Bool-cases (j == 0)) [
  | inl top ↦ rw top (store-Placed n b j e (omega arith) o (λ pos. absurd (ground arith)) below)
  | inr deeper ↦
      let pos : 0 < j = ground arith in
      rw (deeper, load-ok b (parent j) (omega arith))
        (elim (Bool-cases (leb (key b (parent j)) e.dt)) [
          | inl stop ↦ rw stop (store-Placed n b j e (omega arith) o (λ p. ground arith) below)
          | inr more ↦
              let less : e.dt < key b (parent j) = ground arith in
              let (o', below') = up-IsOpen n b j e.dt pos lt (omega arith) o less below in
              let shifted = set b j (at b (parent j)) in
              let inner =
                up_loop-Placed fuel n shifted (parent j) e (omega arith) (omega arith)
                  (rw length-set room) o' below' in
              rw (more, store-ok b j (at b (parent j)) (omega arith))
                (Ends-weaken
                  (λ r p. record {
                    heap = p.heap;
                    same =
                        Perm.trans p.same
                          (shift-perm n b (parent j) j e (omega arith) (omega arith) lt room);
                    room =
                        p.room
                        ∙ omega (
                          arith,
                          length-set shifted (parent j) e,
                          length-set b j (at b (parent j)),
                          length-set b j e,
                        );
                  })
                  inner)
        ])
]
