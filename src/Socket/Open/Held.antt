-- ===== src/Socket/Open/Held.antt =====
-- c/src/socket/socket_io.c: `socket_connect` and `socket_listen` keep no descriptor but the one
-- that they return.
use code_notebook.Base.{ℕ, suc, ◌+◌, ◌≡◌, ap, ◌∙◌, List, [], ◌∷◌, arith, ◌==◌, if◌then◌else◌}
use code_notebook.System.{
  socket, close, getnameinfo, reuse_address, bind_address, listening, Reply, done, failed, Log,
  Kernel, Process, Outcome, moved, error, timed_out, M, errno_after, pure, call, ndelay_on,
  ndelay_off,
}
use code_notebook.Socket.{connect_timeout}
use code_notebook.Socket.Connect.{
  last_blocks, Asked, asked, Waits, waits, Connects, at_once, confirmed, not_switched, refused,
  no_select, not_connected, too_late, connect_timeout-Connects,
}
use code_notebook.Socket.Open.{
  close_and, kept_or_closed, connect_opened, socket_connect, listen_on, step_or_close,
  start_listening, bind_opened, reuse_opened, bind_to, listen_opened, listen_named, socket_listen,
}

-- How often a log shows the descriptor `g` opened, and how often closed.
abbrev pub opens : ℕ → Log → ℕ
opens g [] = 0
opens g ((socket address, done fd) ∷ log) = if fd == g then suc (opens g log) else opens g log
opens g (other ∷ log) = opens g log

abbrev pub closes : ℕ → Log → ℕ
closes g [] = 0
closes g ((close fd, r) ∷ log) = if fd == g then suc (closes g log) else closes g log
closes g (other ∷ log) = closes g log

abbrev pub one_if : ℕ → ℕ → ℕ
one_if fd g = if fd == g then 1 else 0

abbrev pub returned : ℕ → Outcome → ℕ
returned g (moved fd) = one_if fd g
returned g error = 0
returned g timed_out = 0

-- Since `base` the descriptor `g` was opened `extra` times more than it was closed.
abbrev pub Held : ℕ → ℕ → Log → Log → Type 0
Held g extra base log = opens g log + closes g base ≡ closes g log + opens g base + extra

abbrev tally : ℕ → Log → ℕ × ℕ
tally g log = (opens g log, closes g log)

Held-tally :
    (g extra : ℕ) (base log log' : Log)
    → tally g log' ≡ tally g log
    → Held g extra base log
    → Held g extra base log'
Held-tally g extra base log log' same h =
    omega (arith, h, ap (λ (t : ℕ × ℕ). t.0) same, ap (λ (t : ℕ × ℕ). t.1) same)

Held-socket :
    (g fd address : ℕ) (base log : Log)
    → Held g 0 base log
    → Held g (one_if fd g) base ((socket address, done fd) ∷ log)
Held-socket g fd address base log h = ground arith

module _ (g fd address timeout : ℕ) (base : Log) where
  Asked-tally : {log : Log} → Asked fd address timeout base log → tally g log ≡ tally g base
  Asked-tally (asked w n h e) = ap (tally g) e

  Waits-tally : {log : Log} → Waits fd address timeout base log → tally g log ≡ tally g base
  Waits-tally (waits e a h e') = ap (tally g) e' ∙ Asked-tally a

  Connects-tally :
      {out : Outcome × Process}
      → Connects fd address timeout base out
      → tally g out.1.log ≡ tally g base
  Connects-tally (at_once n p a (last_blocks w r h e)) = ap (tally g) e ∙ Asked-tally a
  Connects-tally (confirmed n m p a (last_blocks w r h e)) = ap (tally g) e ∙ Waits-tally a
  Connects-tally (not_switched w e p h e') = ap (tally g) e'
  Connects-tally (refused e p a h (last_blocks w r h' e')) = ap (tally g) e' ∙ Asked-tally a
  Connects-tally (no_select e p a (last_blocks w r h e')) = ap (tally g) e' ∙ Waits-tally a
  Connects-tally (not_connected e r m p a e') = ap (tally g) e' ∙ Waits-tally a
  Connects-tally (too_late p a h e) = ap (tally g) e ∙ Waits-tally a

module _ (k : Kernel) (g : ℕ) (base : Log) where
  -- What a call that began with the log `base` has left open.
  abbrev Balanced : Outcome × Process → Type 0
  Balanced out = Held g (returned g out.0) base out.1.log

  abbrev Continues : M Outcome → Type 0
  Continues next = (s : Process) → Held g 0 base s.log → Balanced (next s)

  close_and-Balanced :
      (fd : ℕ) (next : M Outcome) (s : Process)
      → Continues next
      → Held g (one_if fd g) base s.log
      → Balanced (close_and k fd next s)
  close_and-Balanced fd next s rest h = rest (call k (close fd) s).1 (ground arith)

  error-Continues : Continues (pure error)
  error-Continues s h = h

  kept_or_closed-Balanced :
      (r : Outcome) (fd : ℕ) (next : M Outcome) (s : Process)
      → Continues next
      → Held g (one_if fd g) base s.log
      → Balanced (kept_or_closed k r fd next s)
  kept_or_closed-Balanced error fd next s rest h = close_and-Balanced fd next s rest h
  kept_or_closed-Balanced timed_out fd next s rest h = h
  kept_or_closed-Balanced (moved n) fd next s rest h = h

  connect_opened-Balanced :
      (r : Reply) (address timeout : ℕ) (next : M Outcome) (s : Process)
      → Continues next
      → Held g 0 base s.log
      → Balanced (
          connect_opened k r address timeout next
            (record { errno = errno_after r s.errno; log = (socket address, r) ∷ s.log }))
  connect_opened-Balanced (failed e) address timeout next s rest h = rest _ h
  connect_opened-Balanced (done fd) address timeout next s rest h =
      let p : Process = record { errno = s.errno; log = (socket address, done fd) ∷ s.log } in
      let out : Outcome × Process = connect_timeout k fd address timeout p in
      let same =
        Connects-tally g fd address timeout p.log
          (connect_timeout-Connects k fd address timeout p) in
      kept_or_closed-Balanced out.0 fd next out.1 rest (
        Held-tally g (one_if fd g) base p.log out.1.log same
          (Held-socket g fd address base s.log h))

  connect-Continues :
      (addresses : List ℕ) (timeout : ℕ) → Continues (socket_connect k addresses timeout)
  unfolding socket_connect
  connect-Continues [] timeout s h = h
  connect-Continues (address ∷ rest) timeout s h =
      connect_opened-Balanced _ address timeout (socket_connect k rest timeout) s
        (connect-Continues rest timeout) h

  listen_on-Balanced :
      (r : Reply) (fd : ℕ) (s : Process)
      → Held g (one_if fd g) base s.log
      → Balanced (listen_on k r fd s)
  unfolding ndelay_off
  listen_on-Balanced (failed e) fd s h = close_and-Balanced fd (pure error) s error-Continues h
  listen_on-Balanced (done n) fd s h = h

  -- The code that goes on with the descriptor `fd` open.
  abbrev Uses : ℕ → M Outcome → Type 0
  Uses fd step = (s : Process) → Held g (one_if fd g) base s.log → Balanced (step s)

  step_or_close-Balanced :
      (r : Reply) (fd : ℕ) (next step : M Outcome)
      → Continues next
      → Uses fd step
      → Uses fd (step_or_close k r fd next step)
  step_or_close-Balanced (failed e) fd next step rest ok s h = close_and-Balanced fd next s rest h
  step_or_close-Balanced (done n) fd next step rest ok s h = ok s h

  bind_to-Balanced :
      (fd address : ℕ) (next : M Outcome) → Continues next → Uses fd (bind_to k fd address next)
  unfolding ndelay_on
  bind_to-Balanced fd address next rest s h =
      let listens : Uses fd (start_listening k fd) = λ s1 h1.
        listen_on-Balanced (call k (listening fd) s1).0 fd (call k (listening fd) s1).1 h1 in
      let binds : Uses fd (bind_opened k fd address next) = λ s2 h2.
        let (r, s3) = call k (bind_address fd address) s2 in
        step_or_close-Balanced r fd next (start_listening k fd) rest listens s3 h2 in
      let reuses : Uses fd (reuse_opened k fd address next) = λ s4 h4.
        let (r, s5) = call k (reuse_address fd) s4 in
        step_or_close-Balanced r fd next (bind_opened k fd address next) rest binds s5 h4 in
      let (r, s6) = ndelay_on k fd s in
      step_or_close-Balanced r fd next (reuse_opened k fd address next) rest reuses s6 h

  listen_opened-Balanced :
      (r : Reply) (address : ℕ) (next : M Outcome) (s : Process)
      → Continues next
      → Held g 0 base s.log
      → Balanced (
          listen_opened k r address next
            (record { errno = errno_after r s.errno; log = (socket address, r) ∷ s.log }))
  listen_opened-Balanced (failed e) address next s rest h = rest _ h
  listen_opened-Balanced (done fd) address next s rest h =
      bind_to-Balanced fd address next rest _ (Held-socket g fd address base s.log h)

  listen_named-Balanced :
      (r : Reply) (address : ℕ) (next : M Outcome) (s : Process)
      → Continues next
      → Held g 0 base s.log
      → Balanced (listen_named k r address next s)
  listen_named-Balanced (failed e) address next s rest h = rest s h
  listen_named-Balanced (done n) address next s rest h =
      listen_opened-Balanced _ address next s rest h

  listen-Continues : (addresses : List ℕ) → Continues (socket_listen k addresses)
  unfolding socket_listen
  listen-Continues [] s h = h
  listen-Continues (address ∷ rest) s h =
      let (r, s1) = call k (getnameinfo address) s in
      listen_named-Balanced r address (socket_listen k rest) s1 (listen-Continues rest) h

-- Of each descriptor, `socket_connect` leaves open what was open before, and the one that it
-- returns: all others that it opened, for whatever address and whatever the kernel answered, it
-- has closed. So does `socket_listen`.
pub socket_connect_keeps_one :
    (k : Kernel) (addresses : List ℕ) (timeout : ℕ) (s : Process) (g : ℕ)
    → let (r, s') = socket_connect k addresses timeout s in
      let (l, t') = socket_listen k addresses s in
      Held g (returned g r) s.log s'.log × Held g (returned g l) s.log t'.log
socket_connect_keeps_one k addresses timeout s g = (
  connect-Continues k g s.log addresses timeout s (omega arith),
  listen-Continues k g s.log addresses s (omega arith),
)
