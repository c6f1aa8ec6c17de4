-- ===== src/Scdb/Buffer/Handing.antt =====
-- buffer_putflush of c/lib/scdb/buffer.c.
use code_notebook.Base.{ℕ, ◌+◌, ◌≤◌, ◌≡◌, ap, true, List, ◌++◌, arith, length, if◌then◌else◌, ◌==◌}
use code_notebook.Run.{ok, Ends, ends, Ends-bind}
use code_notebook.Scdb.Buffer.{Written, Buffer, send, putflush}
use code_notebook.Scdb.Buffer.Writes.{
  credit, breaks, Sent, all_sent, cut_short, allwrite-Sent, held, Flushed, flushed, unflushed,
  flush-Flushed,
}

-- All bytes were taken, behind what was put before; or some answer was a failure.
pub data Handed (s : Buffer) (bytes : List ℕ) : ℕ × Buffer → Type 0 where
  handed : (s' : Buffer) → s'.sent ≡ held s ++ bytes → Handed s bytes (0, s')
  not_handed : (s' : Buffer) → breaks s.answers ≡ true → Handed s bytes (1, s')

Sent-Handed :
    (s s' : Buffer) (bytes : List ℕ) (w : Written)
    → s'.sent ≡ held s
    → (breaks s'.answers ≡ true → breaks s.answers ≡ true)
    → Sent s'.answers bytes w
    → Ends
        (Handed s bytes)
        (ok (w.status, record s' { sent = s'.sent ++ w.bytes; answers = w.answers }))
Sent-Handed s s' bytes w text kept (all_sent left spent kept') =
    ends (handed _ (ap (λ (t : List ℕ). t ++ bytes) text))
Sent-Handed s s' bytes w text kept (cut_short sent rest left bad split) =
    ends (not_handed _ (kept bad))

Flushed-Handed :
    (s : Buffer) (bytes : List ℕ) (a : ℕ × Buffer)
    → s.p + length bytes ≤ credit s.answers
    → Flushed s a
    → Ends (Handed s bytes) (if a.0 == 0 then send a.1 bytes else ok (a.0, a.1))
unfolding send
Flushed-Handed s bytes a patience (flushed s' same text spent kept) =
    Ends-bind (λ w sent. Sent-Handed s s' bytes w text kept sent)
      (allwrite-Sent s'.answers bytes (omega (arith, spent)))
Flushed-Handed s bytes a patience (unflushed s' rest bad split) = ends (not_handed s' bad)

-- When `op` is not interrupted for ever.
pub putflush-Handed :
    (s : Buffer) (bytes : List ℕ)
    → s.p + length bytes ≤ credit s.answers
    → Ends (Handed s bytes) (putflush s bytes)
unfolding putflush
putflush-Handed s bytes patience =
    Ends-bind (λ a h. Flushed-Handed s bytes a patience h) (flush-Flushed s (omega arith))
