-- ===== src/System/Guarded.antt =====
-- A `select` and then, if it reports the descriptor, one call more: the shape of `safe_read` and
-- `safe_write`.
use code_notebook.Base.{ℕ, zero, suc, ◌≤◌, ◌<◌, ◌≡◌, Bool, false, ◌∷◌, arith, length}
use code_notebook.System.{
  Errno, Call, Reply, done, failed, Log, Kernel, Process, Outcome, moved, error, M, pure, ◌>>=◌,
  errno_after, outcome, after_select, call,
}
use code_notebook.System.Retry.{IsTemporary, IsCalm, CalmFrom, asks}

module _ (k : Kernel) (waiting doing : Call) (on_timeout : M Outcome) where
  abbrev pub guarded : M Outcome
  guarded = do
    r ← call k waiting
    after_select r (pure error) (do n ← call k doing; pure (outcome n)) on_timeout

  module _ (again : Outcome → Errno → Bool)
      (no_error : (e : Errno) → (IsTemporary e → ⊥) → again error e ≡ false)
      (no_count : (n : ℕ) (e : Errno) → again (moved n) e ≡ false)
      (no_timeout : (s : Process) → asks again on_timeout s ≡ false) where
    second_calm : (r : Reply) (e : Errno) → IsCalm r → again (outcome r) (errno_after r e) ≡ false
    second_calm (done n) e h = no_count n e
    second_calm (failed e') e h = no_error e' h

    first_calm :
        (r : Reply) (e : Errno) (log : Log)
        → IsCalm r
        → IsCalm (k.answer ((waiting, r) ∷ log) doing)
        → asks again
            (after_select r (pure error) (do n ← call k doing; pure (outcome n)) on_timeout)
            (record { errno = errno_after r e; log = (waiting, r) ∷ log })
          ≡ false
    first_calm (failed e') e log h h' = no_error e' h
    first_calm (done zero) e log h h' = no_timeout _
    first_calm (done (suc n)) e log h h' = second_calm _ _ h'

    -- Of a calm kernel no round is made again.
    pub guarded_calm :
        (n : ℕ) → CalmFrom n k → (s : Process) → n ≤ length s.log → asks again guarded s ≡ false
    guarded_calm n calm s h =
        first_calm (k.answer s.log waiting) s.errno s.log (calm s.log waiting h)
          (calm _ doing (omega arith))

  module _ (kept : (s : Process) → (on_timeout s).1.log ≡ s.log) where
    first_grows :
        (r : Reply) (s : Process)
        → length s.log
          ≤ length
              (after_select r
                (pure error)
                (do n ← call k doing; pure (outcome n))
                on_timeout
                s).1.log
    first_grows (failed e) s = omega arith
    first_grows (done zero) s = rw (kept s) (omega arith)
    first_grows (done (suc n)) s = omega arith

    -- A round makes at least one call.
    pub guarded_grows : (s : Process) → length s.log < length (guarded s).1.log
    guarded_grows s = omega (arith, first_grows (k.answer s.log waiting) (call k waiting s).1)
