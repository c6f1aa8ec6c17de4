-- ===== src/Socket/Connect.antt =====
-- c/src/socket/socket_io.c: what `connect_timeout` tells of the connection.
use code_notebook.Base.{ℕ, zero, suc, ◌≡◌, inl, inr, refl, true, false, ◌∷◌, Bool-cases}
use code_notebook.Sio.{in_progress}
use code_notebook.System.{
  Errno, etimedout, Flags, set_flags, connect, select_write, read, getpeername, Reply, done, failed,
  Log, Kernel, Process, Outcome, moved, error, errno_after, ndelay_on, ndelay_off,
}
use code_notebook.Socket.{
  connect_peer, connect_selected, connect_wait, connect_started, connect_on, connect_timeout,
}

-- The last call asked for the descriptor to block.
pub data LastBlocks (fd : ℕ) (before : Log) : Log → Type 0 where
  last_blocks :
      (w : Flags) (r : Reply) {log : Log}
      → w.nonblock ≡ false
      → log ≡ (set_flags fd w, r) ∷ before
      → LastBlocks fd before log

module _ (fd address timeout : ℕ) (base : Log) where
  -- The descriptor was switched to non-blocking.
  pub data Asked (log : Log) : Type 0 where
    asked :
        (w : Flags) (n : ℕ) → w.nonblock ≡ true → log ≡ (set_flags fd w, done n) ∷ base → Asked log

  -- And `connect` left the connection in progress.
  pub data Waits (log : Log) : Type 0 where
    waits :
        {before : Log} (e : Errno)
        → Asked before
        → in_progress e ≡ true
        → log ≡ (connect fd address, failed e) ∷ before
        → Waits log

  -- The outcome, with `errno`, and all the calls made since `base`.
  pub data Connects : Outcome × Process → Type 0 where
    at_once :
        (n : ℕ) {before : Log} (p : Process)
        → Asked before
        → LastBlocks fd ((connect fd address, done n) ∷ before) p.log
        → Connects (moved 0, p)
    confirmed :
        (n m : ℕ) {before : Log} (p : Process)
        → Waits before
        → LastBlocks fd
            ((getpeername fd, done n) ∷ (select_write fd timeout, done (suc m)) ∷ before)
            p.log
        → Connects (moved 0, p)
    not_switched :
        (w : Flags) (e : Errno) (p : Process)
        → p.errno ≡ e
        → p.log ≡ (set_flags fd w, failed e) ∷ base
        → Connects (error, p)
    refused :
        (e : Errno) {before : Log} (p : Process)
        → Asked before
        → in_progress e ≡ false
        → LastBlocks fd ((connect fd address, failed e) ∷ before) p.log
        → Connects (error, p)
    no_select :
        (e : Errno) {before : Log} (p : Process)
        → Waits before
        → LastBlocks fd ((select_write fd timeout, failed e) ∷ before) p.log
        → Connects (error, p)
    not_connected :
        (e : Errno) (r : Reply) (m : ℕ) {before : Log} (p : Process)
        → Waits before
        → p.log
          ≡ (read fd 1, r)
            ∷ (getpeername fd, failed e)
            ∷ (select_write fd timeout, done (suc m))
            ∷ before
        → Connects (error, p)
    too_late :
        {before : Log} (p : Process)
        → Waits before
        → p.errno ≡ etimedout
        → p.log ≡ (select_write fd timeout, done 0) ∷ before
        → Connects (error, p)

  module _ (k : Kernel) where
    peer-Connects :
        (r : Reply) (m : ℕ) (e : Errno) (log : Log)
        → Waits log
        → Connects (
            connect_peer k r fd (record {
              errno = e;
              log = (getpeername fd, r) ∷ (select_write fd timeout, done (suc m)) ∷ log;
            }))
    unfolding connect_peer ndelay_off
    peer-Connects (failed e') m e log h = not_connected e' _ m _ h refl
    peer-Connects (done n) m e log h = confirmed n m _ h (last_blocks _ _ refl refl)

    selected-Connects :
        (r : Reply) (e : Errno) (log : Log)
        → Waits log
        → Connects (
            connect_selected k r fd
              (record { errno = errno_after r e; log = (select_write fd timeout, r) ∷ log }))
    unfolding connect_selected ndelay_off
    selected-Connects (failed e') e log h = no_select e' _ h (last_blocks _ _ refl refl)
    selected-Connects (done zero) e log h = too_late _ h refl refl
    selected-Connects (done (suc n)) e log h = peer-Connects _ n _ _ h

    started-Connects :
        (r : Reply) (e : Errno) (log : Log)
        → Asked log
        → Connects (
            connect_started k r fd timeout
              (record { errno = errno_after r e; log = (connect fd address, r) ∷ log }))
    unfolding connect_started connect_wait ndelay_off
    started-Connects (done n) e log h = at_once n _ h (last_blocks _ _ refl refl)
    started-Connects (failed e') e log h = elim (Bool-cases (in_progress e')) [
      | inl going ↦ rw (going, connect_started) (selected-Connects _ _ _ (waits e' h going refl))
      | inr fails ↦ rw (fails, connect_started) (refused e' _ h fails (last_blocks _ _ refl refl))
    ]

    on-Connects :
        (r : Reply) (w : Flags) (e : Errno)
        → w.nonblock ≡ true
        → Connects (
            connect_on k r fd address timeout
              (record { errno = errno_after r e; log = (set_flags fd w, r) ∷ base }))
    unfolding connect_on
    on-Connects (failed e') w e h = not_switched w e' _ refl refl
    on-Connects (done n) w e h = started-Connects _ _ _ (asked w n h refl)

-- `connect_timeout` returns 0 only when `connect` succeeded at once, or when it was in progress,
-- `select` reported the descriptor and `getpeername` says that it is connected; then its last call
-- asked that the descriptor block. It returns -1 when the descriptor cannot be switched to
-- non-blocking; when `connect` fails for good or `select` fails, which both ask last that the
-- descriptor block; when `getpeername` fails, and when `select` times out, with ETIMEDOUT, which
-- both leave the descriptor as it was switched. It makes no other calls.
pub connect_timeout-Connects :
    (k : Kernel) (fd address timeout : ℕ) (s : Process)
    → Connects fd address timeout s.log (connect_timeout k fd address timeout s)
unfolding connect_timeout ndelay_on
connect_timeout-Connects k fd address timeout s = on-Connects fd address timeout s.log k _ _ _ refl
