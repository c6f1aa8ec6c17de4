-- ===== src/Socket/Tls.antt =====
-- c/src/socket/socket_io.c: the calls of the TLS library with a time limit.
pub mod Ending
pub mod Handshake
use code_notebook.Base.{
  ℕ, zero, suc, ◌+◌, ◌-◌, Bool, true, false, Option, none, some, ◌==◌, List, ltb, if◌then◌else◌,
}
use code_notebook.Run.{Run, ok, fault, out_of_fuel, ◌>>=◌ as ◌then_run◌}
use code_notebook.System.{
  etimedout, Call, SslOp, ssl_new, bio_new_socket, ssl_connect, ssl_accept, ssl_read, ssl_write,
  ssl_cleanup, M, select_read, select_write, ssl, Reply, done, failed, Want, want_read, want_write,
  no_retry, Kernel, Process, Outcome, moved, error, timed_out, outcome, call, ndelay_on, ndelay_off,
}

-- The end of `ssl_timeoutio`, with what the last `select` gave: -1 keeps its `errno`. At `none`
-- the variable `n` was never set.
abbrev pub give_up : Option Reply → Process → Run (Outcome × Process)
give_up none s = fault
give_up (some (done n)) s = ok (error, record s { errno = etimedout })
give_up (some (failed e)) s = ok (error, s)

module _ (k : Kernel) where
  -- The `select` of a round, or none for an error that waiting does not mend.
  abbrev wait_for : Want → ℕ → ℕ → Option Call
  wait_for want_read fd timeout = some (select_read fd timeout)
  wait_for want_write fd timeout = some (select_write fd timeout)
  wait_for no_retry fd timeout = none

  -- `while (n > 0)`.
  abbrev while_ready :
      Reply → Process → (Reply → Process → Run (Outcome × Process)) → Run (Outcome × Process)
  while_ready (done (suc n)) s again = again (done (suc n)) s
  while_ready (done zero) s again = give_up (some (done 0)) s
  while_ready (failed e) s again = give_up (some (failed e)) s

  -- The switch of a round whose call gave `r`, not above 0.
  abbrev wait_round :
      Want
      → ℕ
      → ℕ
      → ℕ
      → Outcome
      → Process
      → (Reply → Process → Run (Outcome × Process))
      → Run (Outcome × Process)
  wait_round no_retry rfd wfd timeout r s again = ok (r, s)
  wait_round want_read rfd wfd timeout r s again =
      let (n, s') = call k (select_read rfd timeout) s in while_ready n s' again
  wait_round want_write rfd wfd timeout r s again =
      let (n, s') = call k (select_write wfd timeout) s in while_ready n s' again

  -- A round whose call did not succeed: out of time, or the switch with the time left.
  abbrev timed_round :
      Outcome
      → Option Reply
      → ℕ
      → ℕ
      → ℕ
      → Process
      → (Reply → Process → Run (Outcome × Process))
      → Run (Outcome × Process)
  timed_round r last rfd wfd end s again =
      if ltb end (k.now s.log)
      then give_up last s
      else wait_round (k.ssl_error s.log) rfd wfd (end - k.now s.log) r s again

  -- `again` takes what the `select` gave into the next round.
  abbrev after_try :
      Reply
      → Option Reply
      → ℕ
      → ℕ
      → ℕ
      → Process
      → (Reply → Process → Run (Outcome × Process))
      → Run (Outcome × Process)
  after_try (done (suc n)) last rfd wfd end s again = ok (moved (suc n), s)
  after_try (done zero) last rfd wfd end s again = timed_round (moved 0) last rfd wfd end s again
  after_try (failed e) last rfd wfd end s again = timed_round error last rfd wfd end s again

  ssl_rounds : ℕ → Call → ℕ → ℕ → ℕ → Option Reply → Process → Run (Outcome × Process)
  ssl_rounds zero fun rfd wfd end last s = out_of_fuel
  ssl_rounds (suc fuel) fun rfd wfd end last s =
      let (r, s') = call k fun s in
      after_try r last rfd wfd end s' (λ n s''. ssl_rounds fuel fun rfd wfd end (some n) s'')

  pub ssl_timeoutio : ℕ → Call → ℕ → ℕ → ℕ → Process → Run (Outcome × Process)
  unfolding ssl_rounds
  ssl_timeoutio fuel fun rfd wfd timeout s =
      ssl_rounds fuel fun rfd wfd (timeout + k.now s.log) none s

  -- A buffer that may be NULL.
  pub ssl_socket_read : ℕ → Option ℕ → ℕ → ℕ → Process → Run (Outcome × Process)
  unfolding ssl_timeoutio
  ssl_socket_read fuel none fd timeout s = ok (error, s)
  ssl_socket_read fuel (some size) fd timeout s =
      if k.ssl_pending s.log == 0
      then ssl_timeoutio fuel (ssl (ssl_read size)) fd fd timeout s
      else let (r, s') = call k (ssl (ssl_read size)) s in ok (outcome r, s')

  pub ssl_socket_write : ℕ → Option (List ℕ) → ℕ → ℕ → Process → Run (Outcome × Process)
  unfolding ssl_timeoutio
  ssl_socket_write fuel none fd timeout s = ok (moved 0, s)
  ssl_socket_write fuel (some bytes) fd timeout s =
      ssl_timeoutio fuel (ssl (ssl_write bytes)) fd fd timeout s

  -- `true` for the object, `false` for NULL after its release.
  abbrev released : Process → Run (Bool × Process)
  released s = ok (false, (call k (ssl ssl_cleanup) s).1)

  -- After the handshake of `ssl_socket_connect`.
  abbrev connected : ℕ → Outcome × Process → Run (Bool × Process)
  connected fd (moved (suc n), s) = ok (true, s)
  connected fd (moved zero, s) = released (ndelay_off k fd s).1
  connected fd (error, s) = released (ndelay_off k fd s).1
  connected fd (timed_out, s) = released (ndelay_off k fd s).1

  -- After that of `ssl_socket_accept`: for a result not above 0 the test is `r == -1`.
  abbrev accepted : ℕ → Outcome × Process → Run (Bool × Process)
  accepted fd (moved (suc n), s) = ok (true, s)
  accepted fd (moved zero, s) = ok (true, (ndelay_off k fd s).1)
  accepted fd (error, s) = released (ndelay_off k fd s).1
  accepted fd (timed_out, s) = ok (true, (ndelay_off k fd s).1)

  -- The switch to non-blocking, and the handshake.
  abbrev shake :
      ℕ
      → SslOp
      → ℕ
      → ℕ
      → (Outcome × Process → Run (Bool × Process))
      → Reply × Process
      → Run (Bool × Process)
  shake fuel op fd timeout next (failed e, s) = released s
  shake fuel op fd timeout next (done n, s) =
      ssl_timeoutio fuel (ssl op) fd fd timeout s then_run next

  abbrev connect_with : ℕ → ℕ → ℕ → Reply × Process → Run (Bool × Process)
  connect_with fuel fd timeout (failed e, s) = ok (false, s)
  connect_with fuel fd timeout (done n, s) =
      shake fuel ssl_connect fd timeout (connected fd) (ndelay_on k fd s)

  pub ssl_socket_connect : ℕ → ℕ → ℕ → Process → Run (Bool × Process)
  unfolding ssl_timeoutio
  ssl_socket_connect fuel fd timeout s = connect_with fuel fd timeout (call k (ssl ssl_new) s)

  abbrev accept_on : ℕ → ℕ → ℕ → Reply × Process → Run (Bool × Process)
  accept_on fuel fd timeout (failed e, s) = released s
  accept_on fuel fd timeout (done n, s) =
      shake fuel ssl_accept fd timeout (accepted fd) (ndelay_on k fd s)

  abbrev accept_with : ℕ → ℕ → ℕ → Reply × Process → Run (Bool × Process)
  accept_with fuel fd timeout (failed e, s) = ok (false, s)
  accept_with fuel fd timeout (done n, s) =
      accept_on fuel fd timeout (call k (ssl bio_new_socket) s)

  pub ssl_socket_accept : ℕ → ℕ → ℕ → Process → Run (Bool × Process)
  unfolding ssl_timeoutio
  ssl_socket_accept fuel fd timeout s = accept_with fuel fd timeout (call k (ssl ssl_new) s)
