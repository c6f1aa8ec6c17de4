-- ===== src/System/Retry.antt =====
-- The loop of the reading and writing functions: a call is made again while it is interrupted.
use code_notebook.Base.{
  ℕ, zero, suc, ◌+◌, ◌≤◌, ◌<◌, ◌≡◌, Bool, true, false, inl, inr, arith, length, Bool-cases,
  true-ne-false, dec_lt, refl,
}
use code_notebook.Run.{Run, ok, out_of_fuel, Ends, ends, Ends-weaken}
use code_notebook.System.{
  Errno, eagain, eintr, einprogress, etimedout, Reply, done, failed, Log, Call, Kernel, Process,
  Outcome, M,
}

-- `for (;;) { r = io(); if (again(r, errno)) continue; break; }`
unfoldable pub retry : ℕ → (Outcome → Errno → Bool) → M Outcome → Process → Run (Outcome × Process)
retry zero again io s = out_of_fuel
retry (suc fuel) again io s =
    let (r, s') = io s in
    elim (again r s'.errno) [ true ↦ retry fuel again io s' | false ↦ ok (r, s') ]

abbrev pub try_again : Errno → Bool
try_again eagain = true
try_again eintr = true
try_again e = false

-- The values of `errno` for which a call is to be made again: there was nothing to do yet, or a
-- signal came.
pub data IsTemporary : Errno → Type 0 where
  nothing_yet : IsTemporary eagain
  signalled : IsTemporary eintr

pub try_again_sound : (e : Errno) → try_again e ≡ true → IsTemporary e
try_again_sound eagain h = nothing_yet
try_again_sound eintr h = signalled
try_again_sound einprogress h = absurd (true-ne-false h refl)
try_again_sound etimedout h = absurd (true-ne-false h refl)
try_again_sound (Errno.other n) h = absurd (true-ne-false h refl)

pub try_again_complete : (e : Errno) → IsTemporary e → try_again e ≡ true
try_again_complete _ nothing_yet = refl
try_again_complete _ signalled = refl

pub try_again-eq_false : (e : Errno) → (IsTemporary e → ⊥) → try_again e ≡ false
try_again-eq_false e lasting = elim (Bool-cases (try_again e)) [
  | inl h ↦ absurd (lasting (try_again_sound e h))
  | inr h ↦ h
]

abbrev pub IsCalm : Reply → Type 0
IsCalm (done n) = Unit
IsCalm (failed e) = IsTemporary e → ⊥

-- Once `n` calls have been made the kernel interrupts none any more.
abbrev pub CalmFrom : ℕ → Kernel → Type 0
CalmFrom n k = (log : Log) (c : Call) → n ≤ length log → IsCalm (k.answer log c)

-- The outcome is that of the first round that is not one of those to be made again, `Repeated`.
pub data Settled (Repeated : Outcome → Errno → Type 0) (io : M Outcome)
    : Process → Outcome × Process → Type 0 where
  first :
      {s : Process} {out : Outcome × Process}
      → (Repeated (io s).0 (io s).1.errno → ⊥)
      → out ≡ io s
      → Settled Repeated io s out
  later :
      {s : Process} {out : Outcome × Process}
      → Repeated (io s).0 (io s).1.errno
      → Settled Repeated io (io s).1 out
      → Settled Repeated io s out

module _ (again : Outcome → Errno → Bool) (io : M Outcome) where
  abbrev pub asks : Process → Bool
  asks s = again (io s).0 (io s).1.errno

  early_of :
      (s : Process) (n : ℕ) → (n ≤ length s.log → asks s ≡ false) → asks s ≡ true → length s.log < n
  early_of s n calm e = elim (dec_lt (length s.log) n) [
    | yes p ↦ p
    | no p ↦ absurd (true-ne-false e (calm (omega arith)))
  ]

  -- When no call is interrupted any more from the `n`-th on, each round makes a call, and the test of
  -- the loop finds the rounds that are to be made again, it returns with the outcome of the first
  -- round that is not.
  pub retry_returns :
      (Repeated : Outcome → Errno → Type 0)
      → ((r : Outcome) (e : Errno) → again r e ≡ true → Repeated r e)
      → ((r : Outcome) (e : Errno) → Repeated r e → again r e ≡ true)
      → (n : ℕ) → ((s : Process) → n ≤ length s.log → asks s ≡ false)
      → ((s : Process) → length s.log < length (io s).1.log)
      → (fuel : ℕ) (s : Process) → n < fuel + length s.log
      → (0 < fuel)
      → Ends (Settled Repeated io s) (retry fuel again io s)
  unfolding retry
  retry_returns Repeated sound complete n calm grows zero s enough some_fuel = elim some_fuel [ ]
  retry_returns Repeated sound complete n calm grows (suc fuel) s enough some_fuel =
      elim (Bool-cases (asks s)) [
        | inl e ↦
            let early : length s.log < n = early_of s n (calm s) e in
            rw (e, retry)
              (Ends-weaken (λ out settled. later (sound (io s).0 (io s).1.errno e) settled)
                (retry_returns Repeated sound complete n calm grows fuel (io s).1
                  (omega (arith, grows s)) (omega arith)))
        | inr e ↦
            rw (e, retry)
              (ends (first (λ h. true-ne-false (complete (io s).0 (io s).1.errno h) e) refl))
      ]
