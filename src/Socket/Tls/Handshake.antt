-- ===== src/Socket/Tls/Handshake.antt =====
-- c/src/socket/socket_io.c: what the handshakes of the two ends do with the object of the TLS library.
use code_notebook.Base.{ℕ, suc, ◌≡◌, Bool, true, false, [], ◌∷◌, if◌then◌else◌}
use code_notebook.Run.{Run, ok, fault, out_of_fuel, ◌>>=◌ as ◌then_run◌}
use code_notebook.System.{
  Errno, Call, SslOp, ssl_new, ssl_cleanup, ssl, Reply, failed, Log, Kernel, Process, Outcome,
  moved, error,
}
use code_notebook.Socket.Tls.{ssl_timeoutio}
use code_notebook.Socket.Tls.Ending.{Ending}

abbrev pub is_cleanup : Call → Bool
is_cleanup (ssl ssl_cleanup) = true
is_cleanup c = false

-- How often an object of the library was released.
abbrev pub cleanups : Log → ℕ
cleanups [] = 0
cleanups ((c, r) ∷ log) = if is_cleanup c then suc (cleanups log) else cleanups log

-- A run after which `n` objects were released, if it came to an end.
data Quiet (n : ℕ) : Run (Outcome × Process) → Type 0 where
  quiet : (r : Outcome) (p : Process) → cleanups p.log ≡ n → Quiet n (ok (r, p))
  no_value : Quiet n fault
  endless : Quiet n out_of_fuel

-- It came to an end, but for a read of the unset variable.
data Came (n : ℕ) : Run (Outcome × Process) → Type 0 where
  came : (r : Outcome) (p : Process) → cleanups p.log ≡ n → Came n (ok (r, p))
  unset_read : Came n fault

-- The results of the handshake with which ssl_socket_connect and ssl_socket_accept keep the object.
abbrev pub IsPositive : Outcome → Type 0
IsPositive (moved (suc n)) = Unit
IsPositive r = ⊥

abbrev pub IsNoError : Outcome → Type 0
IsNoError error = ⊥
IsNoError r = Unit

module _ (k : Kernel) (fuel fd timeout : ℕ) (op : SslOp) (Keeps : Outcome → Type 0)
    (log : Log) where
  -- What becomes of the object: none was made; it was released, once and last of all, because a call
  -- before the handshake failed or for the result of the handshake; or it is returned, for its
  -- result, and was not released. Or the handshake reads a variable unset.
  pub data Handled : Run (Bool × Process) → Type 0 where
    no_object :
        (e : Errno) (p : Process) → p.log ≡ (ssl ssl_new, failed e) ∷ log → Handled (ok (false, p))
    not_started :
        (c : Call) (e : Errno) (x : Reply) {before : Log} (p : Process)
        → p.log ≡ (ssl ssl_cleanup, x) ∷ (c, failed e) ∷ before
        → cleanups before ≡ cleanups log
        → Handled (ok (false, p))
    kept :
        (r : Outcome) (first last p : Process)
        → ssl_timeoutio k fuel (ssl op) fd fd timeout first ≡ ok (r, last)
        → Keeps r
        → cleanups p.log ≡ cleanups log
        → Handled (ok (true, p))
    released_after :
        (r : Outcome) (first last : Process) (x : Reply) {before : Log} (p : Process)
        → ssl_timeoutio k fuel (ssl op) fd fd timeout first ≡ ok (r, last)
        → (Keeps r → ⊥)
        → p.log ≡ (ssl ssl_cleanup, x) ∷ before
        → cleanups before ≡ cleanups log
        → Handled (ok (false, p))
    unset : Handled fault
