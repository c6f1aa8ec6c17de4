-- ===== src/Prioq/Tests.antt =====
-- Runs of the queue, and its theorems at concrete queues.
use mathlib.Core.List.{Perm}
use code_notebook.Base.{
  ℕ, ◌/◌, ◌≡◌, refl, ◌≢◌, List, [], ◌∷◌, none, some, arith, true, replicate, length-replicate,
}
use code_notebook.Run.{ok, ◌>>=◌, Ends}
use code_notebook.Prioq.{
  Elt, Prioq, Malloc, spq_new, spq_add, spq_get, insert, readplus, alloc, alloc_re, memcpy, up_loop,
  down_loop, del_min, min_elt, load, store,
}
use code_notebook.Prioq.Order.{blank}
use code_notebook.Prioq.Grow.{IsMalloc, IsValid}
use code_notebook.Prioq.Queue.{SpqAdded, Got, spq_add-SpqAdded, spq_get-Got}
use code_notebook.Prioq.Drain.{IsSorted, add_all, get_all, get_all-add_all-sorts}

abbrev generous : Malloc
generous n = some (replicate (n / 16) blank)

generous-IsMalloc : IsMalloc generous
generous-IsMalloc n b e = ground (arith, length-replicate (n / 16) blank)

generous_never_refuses : (n : ℕ) → generous n ≢ none
generous_never_refuses n e = cc

abbrev elt : ℕ → ℕ → Elt
elt id dt = record { id = id; dt = dt }

abbrev queue : Prioq
queue = record { p = some (elt 1 3 ∷ elt 2 8 ∷ elt 3 5 ∷ []); len = 2; size = 3 }

queue-IsValid : IsValid queue
queue-IsValid = grind arith

abbrev session : List Elt
session = elt 1 7 ∷ elt 2 3 ∷ elt 3 9 ∷ elt 4 1 ∷ []

-- Four entries go in, with a growth from 1 to 102 cells, and come out by `dt`.
served :
    (add_all generous session (spq_new true) >>= get_all 5)
    ≡ ok (elt 4 1 ∷ elt 2 3 ∷ elt 1 7 ∷ elt 3 9 ∷ [])
unfolding add_all get_all spq_new spq_add spq_get insert readplus alloc alloc_re memcpy up_loop
    down_loop del_min min_elt load store
served = refl

-- Without memory nothing is added.
refused_add :
    spq_add (λ n. none) (spq_new true) (some (elt 1 1))
    ≡ ok (1, some (record { p = none; len = 0; size = 1 }))
unfolding spq_new spq_add insert readplus alloc
refused_add = refl

spq_add-SpqAdded_example :
    Ends (SpqAdded generous queue (elt 9 4)) (spq_add generous (some queue) (some (elt 9 4)))
spq_add-SpqAdded_example =
    spq_add-SpqAdded generous queue (elt 9 4) generous-IsMalloc queue-IsValid (omega arith)

spq_get-Got_example : Ends (Got queue) (spq_get (some queue))
spq_get-Got_example = spq_get-Got queue queue-IsValid

get_all-add_all-sorts_example :
    Ends
      (λ out. IsSorted out × Perm out session)
      (add_all generous session (spq_new true) >>= get_all 5)
get_all-add_all-sorts_example =
    get_all-add_all-sorts generous session generous-IsMalloc generous_never_refuses (omega arith)
