-- ===== src/Sio/Returns.antt =====
-- c/src/io/sio.c: `sock_read` and `sock_write` return.
use code_notebook.Base.{
  ℕ, ◌+◌, ◌<◌, ◌≡◌, refl, true, false, true-ne-false, Bool-cases, inl, inr, List, length,
}
use code_notebook.Run.{Ends}
use code_notebook.System.{
  Errno, eagain, eintr, einprogress, etimedout, select_read, select_write, read, write, Kernel,
  Process, Outcome, moved, error, timed_out, pure,
}
use code_notebook.System.Retry.{
  IsTemporary, nothing_yet, signalled, CalmFrom, Settled, retry_returns,
}
use code_notebook.System.Guarded.{guarded_calm, guarded_grows}
use code_notebook.Sio.{interrupted, safe_read, safe_write, sock_read, sock_write}

-- The rounds that are to be made again: -1, with EAGAIN or EINTR in `errno`.
pub data Repeated : Outcome → Errno → Type 0 where
  failed_round : {e : Errno} → IsTemporary e → Repeated error e

interrupted_sound : (r : Outcome) (e : Errno) → interrupted r e ≡ true → Repeated r e
unfolding interrupted
interrupted_sound (moved n) e h = absurd (true-ne-false h refl)
interrupted_sound timed_out e h = absurd (true-ne-false h refl)
interrupted_sound error eagain h = failed_round nothing_yet
interrupted_sound error eintr h = failed_round signalled
interrupted_sound error einprogress h = absurd (true-ne-false h refl)
interrupted_sound error etimedout h = absurd (true-ne-false h refl)
interrupted_sound error (Errno.other n) h = absurd (true-ne-false h refl)

interrupted_complete : (r : Outcome) (e : Errno) → Repeated r e → interrupted r e ≡ true
unfolding interrupted
interrupted_complete _ _ (failed_round nothing_yet) = refl
interrupted_complete _ _ (failed_round signalled) = refl

interrupted-eq_false : (e : Errno) → (IsTemporary e → ⊥) → interrupted error e ≡ false
interrupted-eq_false e lasting = elim (Bool-cases (interrupted error e)) [
  | inl h ↦ absurd (other_round (interrupted_sound error e h))
  | inr h ↦ h
]
  where
    other_round : Repeated error e → ⊥
    other_round (failed_round h) = lasting h

module _ (k : Kernel) (n : ℕ) (calm : CalmFrom n k) (fuel fd timeout : ℕ) (s : Process) where
  read_returns :
      (count : ℕ)
      → n < fuel + length s.log
      → 0 < fuel
      → Ends
          (Settled Repeated (safe_read k fd count timeout) s)
          (sock_read k fuel fd count timeout s)
  unfolding sock_read safe_read interrupted
  read_returns count =
      let waiting = select_read fd timeout in
      let doing = read fd count in
      retry_returns interrupted (safe_read k fd count timeout) Repeated interrupted_sound
        interrupted_complete n
        (guarded_calm k waiting doing (pure timed_out) interrupted interrupted-eq_false
          (λ m e. refl) (λ s'. refl) n calm)
        (guarded_grows k waiting doing (pure timed_out) (λ s'. refl)) fuel s

  write_returns :
      (bytes : List ℕ)
      → n < fuel + length s.log
      → 0 < fuel
      → Ends
          (Settled Repeated (safe_write k fd bytes timeout) s)
          (sock_write k fuel fd bytes timeout s)
  unfolding sock_write safe_write interrupted
  write_returns bytes =
      let waiting = select_write fd timeout in
      let doing = write fd bytes in
      retry_returns interrupted (safe_write k fd bytes timeout) Repeated interrupted_sound
        interrupted_complete n
        (guarded_calm k waiting doing (pure timed_out) interrupted interrupted-eq_false
          (λ m e. refl) (λ s'. refl) n calm)
        (guarded_grows k waiting doing (pure timed_out) (λ s'. refl)) fuel s

  -- If the kernel interrupts none of its calls from the n-th on, `sock_read` and `sock_write`
  -- return, given rounds for the calls up to there: each with what its first round gave that
  -- was not interrupted by EAGAIN or EINTR.
  pub sock_read_returns :
      (count : ℕ) (bytes : List ℕ)
      → n < fuel + length s.log
      → 0 < fuel
      → Ends
          (Settled Repeated (safe_read k fd count timeout) s)
          (sock_read k fuel fd count timeout s)
        × Ends
            (Settled Repeated (safe_write k fd bytes timeout) s)
            (sock_write k fuel fd bytes timeout s)
  sock_read_returns count bytes enough some_fuel =
      (read_returns count enough some_fuel, write_returns bytes enough some_fuel)
