-- ===== src/Sio.antt =====
-- c/src/io/sio.c: connecting, reading and writing with a time limit.
pub mod Returns
use code_notebook.Base.{ℕ, zero, suc, Bool, true, false, List}
use code_notebook.Run.{Run}
use code_notebook.System.Retry.{retry}
use code_notebook.System.{
  Errno, eagain, eintr, einprogress, Call, connect, select_read, select_write, read, write, Reply,
  done, failed, Kernel, Process, Outcome, moved, error, timed_out, M, pure, ◌>>=◌, ◌>>◌, outcome,
  after_select, call, ndelay_on, ndelay_off,
}

-- The test in `sock_read` and `sock_write`: -1 with EAGAIN or EINTR.
pub interrupted : Outcome → Errno → Bool
interrupted error eagain = true
interrupted error eintr = true
interrupted error e = false
interrupted (moved n) e = false
interrupted timed_out e = false

-- `errno` of a `connect` that goes on in the background.
abbrev pub in_progress : Errno → Bool
in_progress einprogress = true
in_progress eagain = true
in_progress e = false

module _ (k : Kernel) where
  pub safe_read : ℕ → ℕ → ℕ → M Outcome
  safe_read fd count timeout = do
    r ← call k (select_read fd timeout)
    after_select r (pure error) (do n ← call k (read fd count); pure (outcome n)) (pure timed_out)

  pub safe_write : ℕ → List ℕ → ℕ → M Outcome
  safe_write fd bytes timeout = do
    r ← call k (select_write fd timeout)
    after_select r (pure error) (do n ← call k (write fd bytes); pure (outcome n)) (pure timed_out)

  pub sock_read : ℕ → ℕ → ℕ → ℕ → Process → Run (Outcome × Process)
  unfolding retry
  sock_read fuel fd count timeout = retry fuel interrupted (safe_read fd count timeout)

  pub sock_write : ℕ → ℕ → List ℕ → ℕ → Process → Run (Outcome × Process)
  unfolding retry
  sock_write fuel fd bytes timeout = retry fuel interrupted (safe_write fd bytes timeout)

  -- `connect` failed and is not in progress: -1. Else wait for the descriptor to be writable.
  connect_selected : Reply → ℕ → M Outcome
  connect_selected (failed e) fd = pure error
  connect_selected (done zero) fd = pure timed_out
  connect_selected (done (suc n)) fd = do ndelay_off k fd; pure (moved 0)

  connect_wait : ℕ → ℕ → M Outcome
  unfolding connect_selected
  connect_wait fd timeout = do r ← call k (select_write fd timeout); connect_selected r fd

  connect_started : Reply → ℕ → ℕ → M Outcome
  unfolding connect_wait
  connect_started (done n) fd timeout = do ndelay_off k fd; pure (moved 0)
  connect_started (failed e) fd timeout = elim (in_progress e) [
    | true ↦ connect_wait fd timeout
    | false ↦ pure error
  ]

  sock_connect_on : Reply → ℕ → ℕ → ℕ → M Outcome
  unfolding connect_started
  sock_connect_on (failed e) fd address timeout = pure error
  sock_connect_on (done n) fd address timeout = do
    r ← call k (connect fd address)
    connect_started r fd timeout

  pub sock_connect : ℕ → ℕ → ℕ → M Outcome
  unfolding sock_connect_on
  sock_connect fd address timeout = do r ← ndelay_on k fd; sock_connect_on r fd address timeout
