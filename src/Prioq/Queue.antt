-- ===== src/Prioq/Queue.antt =====
-- spq_add and spq_get on a valid queue.
use mathlib.Core.List.{Perm, Mem, not-mem-nil, forall_mem-cons}
use mathlib.Core.List.Perm
use native.Mathlib.Bridge.{le_prop}
use code_notebook.Base.{
  ℕ, zero, suc, ◌+◌, ◌-◌, ◌≤◌, ◌<◌, ◌≡◌, refl, List, [], ◌∷◌, ◌++◌, Option, none, some, arith,
  false, ◌∙◌, ◌==◌, length, set, take, length-take, length-set, if◌then◌else◌, ap,
}
use code_notebook.Base.Cells.{get_or-set, take-set, take-suc, set-beyond, concat-perm}
use code_notebook.Run.{Run, ok, ◌>>=◌, Ends, ends, Ends-bind}
use code_notebook.Prioq.{
  Elt, Prioq, Malloc, u32, parent, readplus, up_loop, insert, min_elt, del_min, spq_add, spq_get,
}
use code_notebook.Prioq.Order.{at, key, blank, IsHeap, IsOpen}
use code_notebook.Prioq.Up.{up_loop-Placed, load-ok}
use code_notebook.Prioq.Down.{down_loop-Placed}
use code_notebook.Prioq.Grow.{
  IsMalloc, items, IsBlock, IsValid, max_len, Refuses, Ready, roomy, refused, readplus-Ready,
}

-- A heap, with a new cell behind it.
append-IsOpen : (n : ℕ) (b : List Elt) → IsHeap n b → IsOpen (suc n) b n
append-IsOpen n b h = record {
  apart = λ c p q r s. h c p (omega arith);
  across = λ c p q r s. absurd (omega arith);
}

take-append :
    (n : ℕ) (b : List Elt) (e : Elt) → n < length b → take (suc n) (set b n e) ≡ take n b ++ e ∷ []
take-append n b e h =
    take-suc n (set b n e) blank (rw length-set h)
    ∙ rw (take-set n b n e, set-beyond (take n b) n e (omega (arith, length-take n b)))
        (ap (λ (t : Elt). take n b ++ t ∷ []) (ground (arith, get_or-set b n n e blank h)))

-- What adding `e` leaves: `e` among the entries, or the queue as it was when malloc refuses.
pub data Added (malloc : Malloc) (q : Prioq) (e : Elt) : ℕ × Prioq → Type 0 where
  added :
      (q' : Prioq)
      → IsValid q'
      → Perm (items q') (e ∷ items q)
      → q'.len ≡ q.len + 1
      → Added malloc q e (0, q')
  not_added :
      (q' : Prioq) → Refuses malloc → IsValid q' → items q' ≡ items q → Added malloc q e (1, q')

place :
    (malloc : Malloc) (q : Prioq) (e : Elt) (b : List Elt) (size : ℕ)
    → IsHeap q.len b
    → q.len < size
    → size ≤ length b
    → take q.len b ≡ items q
    → q.len < max_len
    → Ends (Added malloc q e) (
        up_loop (q.len + 1) b q.len e >>= λ b'.
        ok (0, record { p = some b'; len = u32 (q.len + 1); size = size }))
place malloc q e b size heap fits room same small =
    Ends-bind
      (λ b' p.
        let n : u32 (q.len + 1) ≡ suc q.len = omega arith in
        rw n (
          ends (
            added _ (p.heap, fits, rw (p.room, length-set) room)
              (Perm.trans p.same
                (rw (take-append q.len b e (omega arith), same) (concat-perm (items q) e)))
              (omega arith))))
      (up_loop-Placed (q.len + 1) (suc q.len) b q.len e (omega arith) (omega arith) (omega arith)
        (append-IsOpen q.len b heap) (λ c p q r. absurd (omega arith)))

insert-Ready :
    (malloc : Malloc) (q : Prioq) (e : Elt)
    → q.len < max_len
    → {r : Run (ℕ × Prioq)} → readplus malloc q 1 ≡ r
    → Ends (Ready malloc q) r
    → Ends (Added malloc q e) (insert malloc q e)
unfolding insert
insert-Ready malloc q e small ran (ends (roomy b len size n heap fits room same)) =
    rw (ran, n) (place malloc q e b size (rw n at heap) (rw n at fits) room (rw n at same) small)
insert-Ready malloc q e small ran (ends (refused q' why valid same)) =
    rw ran (ends (not_added q' why valid same))

insert-Added :
    (malloc : Malloc) (q : Prioq) (e : Elt)
    → IsMalloc malloc
    → IsValid q
    → q.len < max_len
    → Ends (Added malloc q e) (insert malloc q e)
insert-Added malloc q e m valid small =
    insert-Ready malloc q e small refl (readplus-Ready malloc m q.p q.len q.size small valid)

-- The same, of the queue that a pointer shows.
pub data SpqAdded (malloc : Malloc) (q : Prioq) (e : Elt) : ℕ × Option Prioq → Type 0 where
  spq_added :
      (failed : ℕ) (q' : Prioq)
      → Added malloc q e (failed, q')
      → SpqAdded malloc q e (failed, some q')

-- spq_add on a valid queue of fewer than 2 ^ 27 entries ends inside its blocks: it returns 0
-- and a valid queue with the entry added, or 1 and the entries as they were when malloc refuses.
pub spq_add-SpqAdded :
    (malloc : Malloc) (q : Prioq) (e : Elt)
    → IsMalloc malloc
    → IsValid q
    → q.len < max_len
    → Ends (SpqAdded malloc q e) (spq_add malloc (some q) (some e))
unfolding spq_add
spq_add-SpqAdded malloc q e m valid small =
    Ends-bind (λ r a. step r a) (insert-Added malloc q e m valid small)
  where
    step :
        (r : ℕ × Prioq)
        → Added malloc q e r
        → Ends (SpqAdded malloc q e) (ok (if r.0 == 0 then 0 else 1, some r.1))
    step r (added q' v p n) = ends (spq_added 0 q' (added q' v p n))
    step r (not_added q' w v s) = ends (spq_added 1 q' (not_added q' w v s))

key_root : (k : ℕ) (n : ℕ) (b : List Elt) → IsHeap n b → (i : ℕ) → i < k → i < n → key b 0 ≤ key b i
key_root zero n b h i f lt = absurd (omega arith)
key_root (suc k) n b h i f lt = ground (arith, h i, key_root k n b h (parent i))

all_from_key :
    (n : ℕ) (b : List Elt) (d : ℕ)
    → n ≤ length b
    → ((i : ℕ) → i < n → d ≤ key b i)
    → (t : Elt) → Mem t (take n b)
    → d ≤ t.dt
all_from_key zero b d fits h = λ t mem. absurd (not-mem-nil mem)
all_from_key (suc n) [] d fits h = absurd (omega arith)
all_from_key (suc n) (x ∷ b) d fits h =
    (forall_mem-cons λ t. le_prop).1
      (h 0 (omega arith), all_from_key n b d (omega arith) (λ i p. h (suc i) (omega arith)))

drop_root :
    (n : ℕ) (b : List Elt)
    → n < length b
    → Perm (at b 0 ∷ take n (set b 0 (at b n))) (take (suc n) b)
drop_root n [] h = absurd (omega arith)
drop_root zero (x ∷ b) h = Perm.rfl
drop_root (suc n) (x ∷ b) h =
    rw (take-suc (suc n) (x ∷ b) blank h)
      (Perm.cons x (Perm.symm (concat-perm (take n b) (at b n))))

-- What spq_get leaves: nothing from a queue with no entries, and otherwise one that no other
-- precedes, with the rest in the queue.
pub data Got (q : Prioq) : Option Elt × Option Prioq → Type 0 where
  nothing : items q ≡ [] → Got q (none, some q)
  got :
      (e : Elt) (q' : Prioq)
      → IsValid q'
      → Perm (e ∷ items q') (items q)
      → ((t : Elt) → Mem t (items q) → e.dt ≤ t.dt)
      → q.len ≡ suc q'.len
      → Got q (some e, some q')

remove_first :
    (b : List Elt) (n size : ℕ)
    → IsHeap (suc n) b
    → suc n ≤ size
    → size ≤ length b
    → Ends
        (λ q'. Got (record { p = some b; len = suc n; size = size }) (some (at b 0), some q'))
        (del_min (record { p = some b; len = suc n; size = size }))
unfolding del_min
remove_first b n size heap fits room =
    let one : suc n - 1 ≡ n = omega arith in
    let some_left : (suc n == 0) ≡ false = ground arith in
    rw (some_left, one)
      (Ends-bind
        (λ b' p. ends (
          got (at b 0) _ (p.heap, omega arith, rw (p.room, length-set) room)
            (Perm.trans (Perm.cons _ p.same) (drop_root n b (omega arith)))
            (all_from_key (suc n) b (key b 0) (omega arith)
              (λ i lt. key_root (suc i) (suc n) b heap i (omega arith) lt))
            refl))
        (down_loop-Placed (n + 1) n b 0 (omega arith) (omega arith) (omega arith)
          (record {
            apart = λ c p q r s. heap c p (omega arith);
            across = λ c p q r s. absurd (omega arith);
          })
          (λ p. absurd (omega arith))))

spq_get_parts :
    (P : Option (List Elt)) (len size : ℕ)
    → IsBlock P len size
    → Ends
        (Got (record { p = P; len = len; size = size }))
        (spq_get (some (record { p = P; len = len; size = size })))
unfolding spq_get min_elt
spq_get_parts none len size v = ends (nothing refl)
spq_get_parts (some b) zero size v = ends (nothing refl)
spq_get_parts (some b) (suc n) size (heap, fits, room) =
    let some_left : (suc n == 0) ≡ false = ground arith in
    rw (some_left, load-ok b 0 (omega arith))
      (Ends-bind (λ q' g. ends g) (remove_first b n size heap fits room))

-- spq_get on a valid queue ends inside the block: it fails and changes nothing when there is no
-- entry; otherwise it returns an entry that no other entry precedes, and leaves a valid queue
-- with exactly the others.
pub spq_get-Got : (q : Prioq) → IsValid q → Ends (Got q) (spq_get (some q))
spq_get-Got q valid = spq_get_parts q.p q.len q.size valid
