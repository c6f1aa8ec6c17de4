-- ===== src/Socket/Tls/Ending.antt =====
-- c/src/socket/socket_io.c: how `ssl_timeoutio` ends.
use code_notebook.Base.{ℕ, zero, suc, ◌≤◌, ◌<◌, ◌≡◌, ◌⊎◌, Option, none, some, ◌∷◌}
use code_notebook.Run.{Run, ok, fault}
use code_notebook.System.{
  Errno, etimedout, Call, Reply, done, failed, no_retry, Log, Kernel, Process, Outcome, moved,
  error, outcome,
}

-- The reply of a call that did not succeed: 0, or -1.
abbrev pub IsShort : Reply → Type 0
IsShort (done zero) = Unit
IsShort (done (suc n)) = ⊥
IsShort (failed e) = Unit

module _ (k : Kernel) (fun : Call) (end : ℕ) (base : Log) where
  -- The loop has waited before, or its first call came back in time.
  abbrev pub InTime : Option Reply → Type 0
  InTime none = k.now ((fun, k.answer base fun) ∷ base) ≤ end
  InTime (some n) = Unit

  -- How the loop ends that starts with the log `base` and the `select` result `last`.
  pub data Ending (last : Option Reply) : Run (Outcome × Process) → Type 0 where
    answered :
        (n : ℕ) {before : Log} (p : Process)
        → p.log ≡ (fun, done (suc n)) ∷ before
        → (before ≡ base) ⊎ InTime last
        → Ending last (ok (moved (suc n), p))
    hard :
        (r : Reply) {before : Log} (p : Process) (out : Outcome)
        → IsShort r
        → p.log ≡ (fun, r) ∷ before
        → k.ssl_error p.log ≡ no_retry
        → out ≡ outcome r
        → InTime last
        → Ending last (ok (out, p))
    out_of_time :
        (p : Process)
        → p.errno ≡ etimedout
        → end < k.now p.log
        → InTime last
        → Ending last (ok (error, p))
    not_ready :
        (c : Call) {before : Log} (p : Process)
        → p.errno ≡ etimedout
        → p.log ≡ (c, done 0) ∷ before
        → InTime last
        → Ending last (ok (error, p))
    no_select :
        (c : Call) (e : Errno) {before : Log} (p : Process)
        → p.errno ≡ e
        → p.log ≡ (c, failed e) ∷ before
        → InTime last
        → Ending last (ok (error, p))
    unset :
        (r : Reply) → last ≡ none → IsShort r → end < k.now ((fun, r) ∷ base) → Ending last fault

abbrev IsReady : Option Reply → Type 0
IsReady none = Unit
IsReady (some (done n)) = Unit
IsReady (some (failed e)) = ⊥

module _ (k : Kernel) (fun : Call) (rfd wfd end : ℕ) (base : Log) (last : Option Reply)
    (again : Reply → Process → Run (Outcome × Process)) where
  -- What is asked of the rounds that follow, after a log `log`.
  abbrev Follows : Log → Type 0
  Follows log =
      (c : Call) (m : ℕ) (e : Errno)
      → Ending k fun end base last
          (again (done (suc m)) (record { errno = e; log = (c, done (suc m)) ∷ log }))
