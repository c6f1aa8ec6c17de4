-- ===== src/Socket/Tests.antt =====
-- Runs of the socket functions with small kernels.
use code_notebook.Base.{
  ℕ, ◌+◌, ◌≡◌, refl, false, [], ◌∷◌, inl, inr, ◌*◌, ◌≤◌, Bool-cases, ltb→lt, arith, length, ltb,
  if◌then◌else◌,
}
use code_notebook.Run.{Run, ok, out_of_fuel, Ends}
use code_notebook.System.{
  Errno, eagain, einprogress, ssl_connect, ssl_accept, Call, set_flags, connect, select_read,
  select_write, read, write, getpeername, close, socket, ssl, Reply, done, failed, status,
  want_read, Log, Kernel, Process, Outcome, moved, ndelay_on, ndelay_off,
}
use code_notebook.System.Retry.{IsTemporary, IsCalm, CalmFrom, Settled, retry}
use code_notebook.Sio
use code_notebook.Sio.Returns
use code_notebook.Sio.Returns.{sock_read_returns}
use code_notebook.Socket
use code_notebook.Socket.Reading.{Repeated, SwitchedBack, socket_read_returns, socket_write_spins}
use code_notebook.Socket.Connect.{Connects, connect_timeout-Connects}
use code_notebook.Socket.Open.{socket_connect, socket_listen}
use code_notebook.Socket.Open.Held.{Held, returned, socket_connect_keeps_one}
use code_notebook.Socket.Tls.Ending.{Ending}

-- Interrupts the first two calls, has a `connect` wait, and gives the sockets 7, 8, and so on.
abbrev early : Log → Reply
early log = if ltb (length log) 2 then failed eagain else done 1

abbrev answers : Log → Call → Reply
answers log (socket address) = done (7 + address)
answers log (set_flags fd w) = done 0
answers log (connect fd address) = failed einprogress
answers log (getpeername fd) = if ltb 7 fd then done 0 else failed (Errno.other 107)
answers log (ssl op) = failed (Errno.other 11)
answers log other = early log

abbrev kernel : Kernel
kernel = record {
  answer = answers;
  get_flags = λ log fd. status (record { nonblock = false; others = 2 });
  ssl_error = λ log. want_read;
  ssl_pending = λ log. 0;
  now = λ log. length log;
}

abbrev fresh : Process
fresh = record { errno = Errno.other 0; log = [] }

early-IsCalm : (log : Log) → 2 ≤ length log → IsCalm (early log)
early-IsCalm log h = elim (Bool-cases (ltb (length log) 2)) [
  | inl e ↦ absurd (omega (arith, ltb→lt (length log) 2 e))
  | inr e ↦ rw e tt
]

lasting : (n : ℕ) → IsTemporary (Errno.other n) → ⊥
lasting n h = elim h [ ]

in_progress-lasting : IsTemporary einprogress → ⊥
in_progress-lasting h = elim h [ ]

peer-IsCalm : (fd : ℕ) → IsCalm (if ltb 7 fd then done 0 else failed (Errno.other 107))
peer-IsCalm fd = elim (Bool-cases (ltb 7 fd)) [ inl e ↦ rw e tt | inr e ↦ rw e (lasting 107) ]

kernel-CalmFrom : CalmFrom 2 kernel
kernel-CalmFrom log (socket address) h = tt
kernel-CalmFrom log (set_flags fd w) h = tt
kernel-CalmFrom log (connect fd address) h = in_progress-lasting
kernel-CalmFrom log (getpeername fd) h = peer-IsCalm fd
kernel-CalmFrom log (ssl op) h = lasting 11
kernel-CalmFrom log (select_read fd t) h = early-IsCalm log h
kernel-CalmFrom log (select_write fd t) h = early-IsCalm log h
kernel-CalmFrom log (read fd n) h = early-IsCalm log h
kernel-CalmFrom log (write fd bytes) h = early-IsCalm log h
kernel-CalmFrom log (close fd) h = early-IsCalm log h
kernel-CalmFrom log (Call.listening fd) h = early-IsCalm log h
kernel-CalmFrom log (Call.getnameinfo fd) h = early-IsCalm log h
kernel-CalmFrom log (Call.reuse_address fd) h = early-IsCalm log h
kernel-CalmFrom log (Call.bind_address fd address) h = early-IsCalm log h

-- Two rounds: an interrupted `select`, and one byte.
socket_read_outcome : Run (Outcome × Process) → ℕ
socket_read_outcome (ok (moved n, s)) = n + 10 * length s.log
socket_read_outcome other = 0

socket_read_test : socket_read_outcome (Socket.socket_read kernel 3 4 100 5 fresh) ≡ 51
unfolding socket_read_outcome Socket.socket_read Socket.safe_read Socket.read_again ndelay_on
    ndelay_off retry
socket_read_test = refl

sock_read_returns_example :
    Ends
      (Settled Sio.Returns.Repeated (Sio.safe_read kernel 4 100 5) fresh)
      (Sio.sock_read kernel 3 4 100 5 fresh)
    × Ends
        (Settled Sio.Returns.Repeated (Sio.safe_write kernel 4 [] 5) fresh)
        (Sio.sock_write kernel 3 4 [] 5 fresh)
sock_read_returns_example =
    sock_read_returns kernel 2 kernel-CalmFrom 3 4 5 fresh 100 [] (omega arith) (omega arith)

socket_read_returns_example :
    Ends
      (SwitchedBack kernel 4
        (Settled Repeated (Socket.safe_read kernel 4 100 5) (ndelay_on kernel 4 fresh).1))
      (Socket.socket_read kernel 3 4 100 5 fresh)
socket_read_returns_example =
    socket_read_returns kernel 2 kernel-CalmFrom 3 4 100 5 fresh (omega arith) (omega arith)

-- A kernel that is always ready and writes nothing.
abbrev idle_answers : Log → Call → Reply
idle_answers log (select_write fd timeout) = done 1
idle_answers log other = done 0

abbrev idle_kernel : Kernel
idle_kernel = record kernel { answer = idle_answers }

abbrev interrupted_before : Process
interrupted_before = record { errno = eagain; log = [] }

socket_write_spins_example :
    Socket.socket_write idle_kernel 1000 4 [] 5 interrupted_before ≡ out_of_fuel
unfolding ndelay_on
socket_write_spins_example =
    socket_write_spins idle_kernel 4 5 [] (λ log. refl) (λ log. refl) interrupted_before refl 1000

connect_timeout-Connects_example : Connects 8 1 5 [] (Socket.connect_timeout kernel 8 1 5 fresh)
connect_timeout-Connects_example = connect_timeout-Connects kernel 8 1 5 fresh

-- The second address is taken, with the descriptor 8.
socket_connect_test : (socket_connect kernel (0 ∷ 1 ∷ 2 ∷ []) 5 fresh).0 ≡ moved 8
unfolding socket_connect Socket.connect_timeout ndelay_on ndelay_off
socket_connect_test = refl

socket_connect_keeps_one_example :
    let (r, s') = socket_connect kernel (0 ∷ 1 ∷ 2 ∷ []) 5 fresh in
    let (l, t') = socket_listen kernel (0 ∷ 1 ∷ 2 ∷ []) fresh in
    Held 8 (returned 8 r) [] s'.log × Held 8 (returned 8 l) [] t'.log
socket_connect_keeps_one_example = socket_connect_keeps_one kernel (0 ∷ 1 ∷ 2 ∷ []) 5 fresh 8

-- A handshake that waits for the peer until the time is up.
abbrev waiting_answers : Log → Call → Reply
waiting_answers log (ssl ssl_connect) = failed eagain
waiting_answers log (ssl ssl_accept) = failed eagain
waiting_answers log other = done 1

abbrev waiting_kernel : Kernel
waiting_kernel = record {
  answer = waiting_answers;
  get_flags = λ log fd. status (record { nonblock = false; others = 2 });
  ssl_error = λ log. want_read;
  ssl_pending = λ log. 0;
  now = λ log. length log;
}
