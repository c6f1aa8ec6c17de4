-- ===== src/Socket/Reading.antt =====
-- c/src/socket/socket_io.c: `socket_read` returns, and when `socket_write` does not.
use code_notebook.Base.{
  ℕ, zero, suc, ◌+◌, ◌<◌, ◌≡◌, refl, ap, ◌∙◌, true, true-ne-false, List, arith, length,
}
use code_notebook.Run.{out_of_fuel, Ends, ends, Ends-bind}
use code_notebook.System.{
  select_read, select_write, read, write, done, Log, Kernel, Process, Outcome, Errno, moved, error,
  timed_out, ndelay_on, ndelay_off,
}
use code_notebook.System.Retry.{
  try_again, try_again_sound, try_again_complete, try_again-eq_false, IsTemporary, CalmFrom, asks,
  Settled, retry_returns, retry,
}
use code_notebook.System.Guarded.{guarded_calm, guarded_grows}
use code_notebook.Socket.{
  read_again, write_again, fail_timed_out, safe_read, safe_write, socket_read, socket_write,
}

-- What `socket_read` gives back: the outcome of its loop, with the descriptor switched back.
pub data SwitchedBack (k : Kernel) (fd : ℕ) (loop : Outcome × Process → Type 0)
    (out : Outcome × Process) : Type 0 where
  switched_back :
      (r : Outcome) (s : Process)
      → loop (r, s)
      → out ≡ (r, (ndelay_off k fd s).1)
      → SwitchedBack k fd loop out

-- The rounds that `socket_read` is to make again: below 0, and with EAGAIN or EINTR in `errno`.
pub data Repeated : Outcome → Errno → Type 0 where
  failed_round : {e : Errno} → IsTemporary e → Repeated error e
  late_round : {e : Errno} → IsTemporary e → Repeated timed_out e

read_again_sound : (r : Outcome) (e : Errno) → read_again r e ≡ true → Repeated r e
unfolding read_again
read_again_sound (moved n) e h = absurd (true-ne-false h refl)
read_again_sound error e h = failed_round (try_again_sound e h)
read_again_sound timed_out e h = late_round (try_again_sound e h)

read_again_complete : (r : Outcome) (e : Errno) → Repeated r e → read_again r e ≡ true
unfolding read_again
read_again_complete _ _ (failed_round {e = e} h) = try_again_complete e h
read_again_complete _ _ (late_round {e = e} h) = try_again_complete e h

module _ (k : Kernel) (n : ℕ) (calm : CalmFrom n k) (fuel fd count timeout : ℕ) (s : Process) where
  -- If the kernel interrupts none of its calls from the n-th on, `socket_read` returns, given
  -- rounds for the calls up to there: with what its first round gave that did not fail with EAGAIN or EINTR, and
  -- the descriptor switched to non-blocking before the first round and back after the last.
  pub socket_read_returns :
      n < fuel + length s.log
      → 0 < fuel
      → Ends
          (SwitchedBack k fd (Settled Repeated (safe_read k fd count timeout) (ndelay_on k fd s).1))
          (socket_read k fuel fd count timeout s)
  unfolding socket_read safe_read read_again ndelay_on
  socket_read_returns enough some_fuel =
      let waiting = select_read fd timeout in
      let doing = read fd count in
      Ends-bind (λ out settled. ends (switched_back out.0 out.1 settled refl))
        (retry_returns read_again (safe_read k fd count timeout) Repeated read_again_sound
          read_again_complete n
          (guarded_calm k waiting doing fail_timed_out read_again try_again-eq_false (λ m e. refl)
            (λ s'. refl) n calm)
          (guarded_grows k waiting doing fail_timed_out (λ s'. refl)) fuel (ndelay_on k fd s).1
          (omega arith) some_fuel)

module _ (k : Kernel) (fd timeout : ℕ) (bytes : List ℕ) where
  write_round :
      ((log : Log) → k.answer log (select_write fd timeout) ≡ done 1)
      → ((log : Log) → k.answer log (write fd bytes) ≡ done 0)
      → (s : Process)
      → (asks write_again (safe_write k fd bytes timeout) s ≡ try_again s.errno)
        × ((safe_write k fd bytes timeout s).1.errno ≡ s.errno)
  unfolding safe_write write_again
  write_round ready nothing s = simp (ready, nothing) (refl, refl)

  retry_spins :
      ((log : Log) → k.answer log (select_write fd timeout) ≡ done 1)
      → ((log : Log) → k.answer log (write fd bytes) ≡ done 0)
      → (fuel : ℕ) (s : Process) → try_again s.errno ≡ true
      → retry fuel write_again (safe_write k fd bytes timeout) s ≡ out_of_fuel
  unfolding retry
  retry_spins ready nothing zero s stale = refl
  retry_spins ready nothing (suc fuel) s stale =
      let (asked, kept) = write_round ready nothing s in
      rw (asked ∙ stale, retry) (retry_spins ready nothing fuel _ (ap try_again kept ∙ stale))

  -- `socket_write` loops for ever, if an interruption of an earlier call is left in `errno` when
  -- it starts its loop, and the kernel always reports the descriptor ready and writes 0 bytes, as
  -- for an empty buffer: no number of rounds is enough.
  pub socket_write_spins :
      ((log : Log) → k.answer log (select_write fd timeout) ≡ done 1)
      → ((log : Log) → k.answer log (write fd bytes) ≡ done 0)
      → (s : Process) → try_again (ndelay_on k fd s).1.errno ≡ true
      → (fuel : ℕ) → socket_write k fuel fd bytes timeout s ≡ out_of_fuel
  unfolding socket_write
  socket_write_spins ready nothing s stale fuel =
      rw (retry_spins ready nothing fuel (ndelay_on k fd s).1 stale)
