-- ===== src/Prioq/Drain.antt =====
-- A client that adds entries to a new queue and takes all of them out again.
use mathlib.Core.List.{Perm, Pairwise, mem-cons_of_mem, append-nil, perm_middle}
use mathlib.Core.List.Perm
use code_notebook.Base.{
  ℕ, zero, suc, ◌+◌, ◌≤◌, ◌<◌, ◌≡◌, refl, sym, ◌≢◌, List, [], ◌∷◌, ◌++◌, Option, none, some, arith,
  ◌∙◌, length, true,
}
use code_notebook.Base.Cells.{length-perm}
use code_notebook.Run.{Run, ok, out_of_fuel, ◌>>=◌, Ends, ends, Ends-bind, Ends-weaken}
use code_notebook.Prioq.{Elt, Prioq, Malloc, spq_new, spq_add, spq_get}
use code_notebook.Prioq.Grow.{IsMalloc, items, IsValid, max_len}
use code_notebook.Prioq.Queue.{
  added, not_added, SpqAdded, spq_added, spq_add-SpqAdded, Got, nothing, got, spq_get-Got,
}

-- spq_add for each entry, whatever it returns
unfoldable pub add_all : Malloc → List Elt → Option Prioq → Run (Option Prioq)
add_all malloc [] q = ok q
add_all malloc (e ∷ es) q = do (_, q') ← spq_add malloc q (some e); add_all malloc es q'

-- spq_get until it fails
unfoldable pub get_all : ℕ → Option Prioq → Run (List Elt)
get_all zero q = out_of_fuel
get_all (suc k) q = do
  (found, q') ← spq_get q
  elim found [ none ↦ ok [] | some e ↦ get_all k q' >>= λ es. ok (e ∷ es) ]

-- In the order in which spq_get serves.
abbrev pub IsSorted : List Elt → Type 0
IsSorted = Pairwise (λ s t. s.dt ≤ t.dt)

abbrev Served : List Elt → List Elt → Type 0
Served es out = IsSorted out × Perm out es

record Filled (es : List Elt) (q : Option Prioq) : Type 0 where
  queue : Prioq
  shown : q ≡ some queue
  valid : IsValid queue
  holds : Perm (items queue) es
  size : queue.len ≡ length es

module _ (malloc : Malloc) (m : IsMalloc malloc) (never : (n : ℕ) → malloc n ≢ none) where
  -- One round, given the rounds after it.
  add_all_step :
      (e : Elt) (es : List Elt) (q : Prioq)
      → q.len ≡ length (items q)
      → q.len + suc (length es) ≤ max_len
      → ((q' : Prioq)
          → IsValid q'
          → q'.len ≡ length (items q')
          → q'.len + length es ≤ max_len
          → Ends (Filled (items q' ++ es)) (add_all malloc es (some q')))
      → (r : ℕ × Option Prioq) → SpqAdded malloc q e r
      → Ends (Filled (items q ++ e ∷ es)) (add_all malloc es r.1)
  add_all_step e es q n fits rest r (spq_added f q' (not_added q'' (k, why) v' s)) =
      absurd (never k why)
  add_all_step e es q n fits rest r (spq_added f q' (added q'' v' p l)) =
      let kept : Perm (items q' ++ es) (items q ++ e ∷ es) =
        Perm.trans (Perm.append p Perm.rfl) (Perm.symm (perm_middle (items q) es)) in
      Ends-weaken
        (λ t h. record {
          queue = h.queue;
          shown = h.shown;
          valid = h.valid;
          holds = Perm.trans h.holds kept;
          size = h.size ∙ length-perm kept;
        })
        (rest q' v' (omega (arith, length-perm p)) (omega arith))

  add_all-Filled :
      (es : List Elt) (q : Prioq)
      → IsValid q
      → q.len ≡ length (items q)
      → q.len + length es ≤ max_len
      → Ends (Filled (items q ++ es)) (add_all malloc es (some q))
  unfolding add_all
  add_all-Filled [] q v n fits = ends (record {
    queue = q;
    shown = refl;
    valid = v;
    holds = rw append-nil Perm.rfl;
    size = rw append-nil n;
  })
  add_all-Filled (e ∷ es) q v n fits =
      Ends-bind
        (λ r a. add_all_step e es q n fits (λ q' v' n' fits'. add_all-Filled es q' v' n' fits') r a)
        (spq_add-SpqAdded malloc q e m v (omega arith))

perm-nil : (es : List Elt) → [] ≡ es → Perm [] es
perm-nil es h = rw (← h) Perm.rfl

get_all_step :
    (k : ℕ) (q : Prioq)
    → ((q' : Prioq) → q'.len < q.len → IsValid q' → Ends (Served (items q')) (get_all k (some q')))
    → (r : Option Elt × Option Prioq) → Got q r
    → Ends
        (Served (items q))
        (elim r.0 [ none ↦ ok [] | some e ↦ get_all k r.1 >>= λ es. ok (e ∷ es) ])
get_all_step k q rest r (nothing h) = ends (Pairwise.nil, perm-nil (items q) (sym h))
get_all_step k q rest r (got e q' v p least n) =
    Ends-bind
      (λ es (sorted, same).
        let all = Perm.trans (Perm.cons e same) p in
        ends (
          Pairwise.cons (λ t mem. least t ((Perm.mem_iff all).0 (mem-cons_of_mem e mem))) sorted,
          all,
        ))
      (rest q' (omega arith) v)

get_all-Served :
    (k : ℕ) (q : Prioq) → q.len < k → IsValid q → Ends (Served (items q)) (get_all k (some q))
unfolding get_all
get_all-Served zero q f v = absurd (omega arith)
get_all-Served (suc k) q f v =
    Ends-bind (λ r g. get_all_step k q (λ q' less v'. get_all-Served k q' (omega arith) v') r g)
      (spq_get-Got q v)

-- With a malloc that never refuses, adding fewer than 2 ^ 27 entries to a new queue and getting
-- until spq_get fails serves exactly these entries, in ascending order of `dt`.
pub get_all-add_all-sorts :
    (malloc : Malloc) (es : List Elt)
    → IsMalloc malloc
    → ((n : ℕ) → malloc n ≢ none)
    → length es ≤ max_len
    → Ends
        (λ out. IsSorted out × Perm out es)
        (add_all malloc es (spq_new true) >>= get_all (length es + 1))
unfolding spq_new
get_all-add_all-sorts malloc es m never fits =
    Ends-bind
      (λ q h. rw h.shown (
        Ends-weaken (λ out (sorted, same). (sorted, Perm.trans same h.holds))
          (get_all-Served (length es + 1) h.queue (omega (arith, h.size)) h.valid)))
      (add_all-Filled malloc m never es _ refl refl (omega arith))
