-- ===== src/Socket.antt =====
-- c/src/socket/socket_io.c: connecting with a time limit, and reading and writing on a connection.
pub mod Open
pub mod Tls
pub mod Reading
pub mod Connect
mod Tests
use code_notebook.Base.{ℕ, zero, suc, Bool, true, false, List}
use code_notebook.Run.{Run, ok, ◌>>=◌ as ◌then_run◌}
use code_notebook.Sio.{in_progress}
use code_notebook.System.Retry.{retry, try_again}
use code_notebook.System.{
  Errno, eagain, eintr, etimedout, connect, select_read, select_write, read, write, getpeername,
  Reply, done, failed, Kernel, Process, Outcome, moved, error, timed_out, M, pure, ◌>>=◌, ◌>>◌,
  outcome, set_errno, after_select, call, ndelay_on, ndelay_off,
}

-- The test in `socket_read`: `r < 0`, with EAGAIN, EWOULDBLOCK or EINTR.
pub read_again : Outcome → Errno → Bool
read_again (moved n) e = false
read_again error e = try_again e
read_again timed_out e = try_again e

-- The test in `socket_write`: `r <= 0`.
pub write_again : Outcome → Errno → Bool
write_again (moved zero) e = try_again e
write_again (moved (suc n)) e = false
write_again error e = try_again e
write_again timed_out e = try_again e

-- `errno = ETIMEDOUT; return -1;`
abbrev pub fail_timed_out : M Outcome
fail_timed_out = do set_errno etimedout; pure error

module _ (k : Kernel) where
  -- `getpeername` tells whether the connection was made; on -1 a `read` fetches the reason.
  connect_peer : Reply → ℕ → M Outcome
  connect_peer (failed e) fd = do call k (read fd 1); pure error
  connect_peer (done n) fd = do ndelay_off k fd; pure (moved 0)

  -- After the `select`: -1 of it, no descriptor in time, or the descriptor writable.
  connect_selected : Reply → ℕ → M Outcome
  unfolding connect_peer
  connect_selected (failed e) fd = do ndelay_off k fd; pure error
  connect_selected (done zero) fd = fail_timed_out
  connect_selected (done (suc n)) fd = do p ← call k (getpeername fd); connect_peer p fd

  connect_wait : ℕ → ℕ → M Outcome
  unfolding connect_selected
  connect_wait fd timeout = do r ← call k (select_write fd timeout); connect_selected r fd

  connect_started : Reply → ℕ → ℕ → M Outcome
  unfolding connect_wait
  connect_started (done n) fd timeout = do ndelay_off k fd; pure (moved 0)
  connect_started (failed e) fd timeout = elim (in_progress e) [
    | true ↦ connect_wait fd timeout
    | false ↦ (do ndelay_off k fd; pure error)
  ]

  connect_on : Reply → ℕ → ℕ → ℕ → M Outcome
  unfolding connect_started
  connect_on (failed e) fd address timeout = pure error
  connect_on (done n) fd address timeout = do
    r ← call k (connect fd address)
    connect_started r fd timeout

  unfoldable pub connect_timeout : ℕ → ℕ → ℕ → M Outcome
  unfolding connect_on
  connect_timeout fd address timeout = do r ← ndelay_on k fd; connect_on r fd address timeout

  pub safe_read : ℕ → ℕ → ℕ → M Outcome
  safe_read fd count timeout = do
    r ← call k (select_read fd timeout)
    after_select r (pure error) (do n ← call k (read fd count); pure (outcome n)) fail_timed_out

  pub safe_write : ℕ → List ℕ → ℕ → M Outcome
  safe_write fd bytes timeout = do
    r ← call k (select_write fd timeout)
    after_select r (pure error) (do n ← call k (write fd bytes); pure (outcome n)) fail_timed_out

  abbrev then_ndelay_off : ℕ → Outcome × Process → Run (Outcome × Process)
  then_ndelay_off fd (r, s) = ok (r, (ndelay_off k fd s).1)

  pub socket_read : ℕ → ℕ → ℕ → ℕ → Process → Run (Outcome × Process)
  unfolding retry
  socket_read fuel fd count timeout s =
      let s' = (ndelay_on k fd s).1 in
      retry fuel read_again (safe_read fd count timeout) s' then_run then_ndelay_off fd

  pub socket_write : ℕ → ℕ → List ℕ → ℕ → Process → Run (Outcome × Process)
  unfolding retry
  socket_write fuel fd bytes timeout s =
      let s' = (ndelay_on k fd s).1 in
      retry fuel write_again (safe_write fd bytes timeout) s' then_run then_ndelay_off fd
