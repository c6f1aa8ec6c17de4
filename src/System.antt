-- ===== src/System.antt =====
-- The system calls that the socket code makes. The kernel is a parameter: what it answers may
-- depend on all the calls made before. A process carries `errno` and the calls made so far.
pub mod Retry
pub mod Guarded
use code_notebook.Base.{ℕ, Bool, true, false, List, ◌∷◌}

-- EWOULDBLOCK is another name of EAGAIN, as on Linux.
pub data Errno : Type 0 where
  eagain eintr einprogress etimedout : Errno
  other : ℕ → Errno

-- The status word of a descriptor: its bit O_NONBLOCK, and the other bits.
pub record Flags : Type 0 where
  pub nonblock : Bool
  pub others : ℕ

-- The calls of the TLS library: `SSL_new`, `BIO_new_socket`, `SSL_connect`, `SSL_accept`, `SSL_read`,
-- `SSL_write`, and those that free the object.
pub data SslOp : Type 0 where
  ssl_new bio_new_socket ssl_connect ssl_accept ssl_cleanup : SslOp
  ssl_read : ℕ → SslOp
  ssl_write : List ℕ → SslOp

-- Descriptors and addresses are numbers. A timeout is in seconds.
pub data Call : Type 0 where
  set_flags : ℕ → Flags → Call
  connect : ℕ → ℕ → Call
  select_read select_write : ℕ → ℕ → Call
  read : ℕ → ℕ → Call
  write : ℕ → List ℕ → Call
  getpeername close listening : ℕ → Call
  getnameinfo socket : ℕ → Call
  reuse_address : ℕ → Call
  bind_address : ℕ → ℕ → Call
  ssl : SslOp → Call

-- A count, a descriptor or 0 for success; or -1 with the value of `errno`. `select` answers how
-- many descriptors it left in the set: the code puts one there, so `FD_ISSET` is `0 < n`.
pub data Reply : Type 0 where
  done : ℕ → Reply
  failed : Errno → Reply

pub data Status : Type 0 where
  status : Flags → Status
  unreadable : Errno → Status

-- What `SSL_get_error` says of the last call.
pub data Want : Type 0 where
  want_read want_write no_retry : Want

abbrev pub Log : Type 0
Log = List (Call × Reply)

pub record Kernel : Type 0 where
  pub answer : Log → Call → Reply
  pub get_flags : Log → ℕ → Status
  pub ssl_error : Log → Want
  pub ssl_pending : Log → ℕ
  pub now : Log → ℕ

pub record Process : Type 0 where
  pub errno : Errno
  pub log : Log

-- What the functions of the sources return: a number, -1, or -2.
pub data Outcome : Type 0 where
  moved : ℕ → Outcome
  error timed_out : Outcome

abbrev pub M : Type 0 → Type 0
M A = Process → A × Process

abbrev pub pure : {A : Type 0} → A → M A
pure a s = (a, s)

infixl 5 ◌>>=◌ ◌>>◌
abbrev pub ◌>>=◌ : {A B : Type 0} → M A → (A → M B) → M B
◌>>=◌ m f s = let (a, s') = m s in f a s'

abbrev pub ◌>>◌ : {A B : Type 0} → M A → M B → M B
m >> next = m >>= λ _. next

-- `errno` is written by a call that fails, and left alone by one that succeeds.
abbrev pub errno_after : Reply → Errno → Errno
errno_after (done n) e = e
errno_after (failed e') e = e'

abbrev pub outcome : Reply → Outcome
outcome (done n) = moved n
outcome (failed e) = error

abbrev pub set_errno : Errno → M (Unit {0})
set_errno e s = (tt, record s { errno = e })

-- The three ways out of a `select` over one descriptor.
abbrev pub after_select : Reply → M Outcome → M Outcome → M Outcome → M Outcome
after_select (failed e) on_error on_ready on_timeout = on_error
after_select (done ℕ.zero) on_error on_ready on_timeout = on_timeout
after_select (done (ℕ.suc n)) on_error on_ready on_timeout = on_ready

module _ (k : Kernel) where
  abbrev pub call : Call → M Reply
  call c s =
      let r = k.answer s.log c in
      (r, record { errno = errno_after r s.errno; log = (c, r) ∷ s.log })

  -- `fcntl(fd, F_GETFL, 0)`: -1, on an error, has every bit set.
  abbrev status_word : Status → Errno → Flags × Errno
  status_word (status w) e = (w, e)
  status_word (unreadable e') e = (record { nonblock = true; others = 0x7fffffff }, e')

  abbrev pub get_status : ℕ → M Flags
  get_status fd s =
      let (w, e) = status_word (k.get_flags s.log fd) s.errno in (w, record s { errno = e })

  -- `ndelay_on` and `ndelay_off`.
  unfoldable pub ndelay_on : ℕ → M Reply
  ndelay_on fd = do w ← get_status fd; call (set_flags fd (record w { nonblock = true }))

  unfoldable pub ndelay_off : ℕ → M Reply
  ndelay_off fd = do w ← get_status fd; call (set_flags fd (record w { nonblock = false }))
