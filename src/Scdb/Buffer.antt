-- ===== src/Scdb/Buffer.antt =====
-- c/lib/scdb/buffer.c: bytes collected in a block and handed to `op` when it is full.
pub mod Writes
pub mod Handing
use code_notebook.Base.{
  ℕ, zero, suc, ◌+◌, ◌-◌, List, [], ◌∷◌, ◌++◌, ltb, ◌==◌, if◌then◌else◌, length, take, drop,
}
use code_notebook.Run.{Run, ok, out_of_fuel, ◌>>=◌}
use code_notebook.Block.{memcpy}

-- What a call of `op`, which is write(), answers: it has taken one byte and `more` others, or all
-- if there are fewer; it was interrupted; or it failed.
pub data Answer : Type 0 where
  moved : ℕ → Answer
  interrupted broken : Answer

-- What allwrite leaves: 0, or 1 in the place of -1; the bytes that were taken; and the answers to
-- the calls that come later.
pub record Written : Type 0 where
  pub status : ℕ
  pub bytes : List ℕ
  pub answers : List Answer

-- allwrite, with the answers that `op` will give
pub allwrite : List Answer → List ℕ → Run Written
allwrite answers [] = ok (record { status = 0; bytes = []; answers = answers })
allwrite [] (b ∷ buf) = out_of_fuel
allwrite (interrupted ∷ answers) (b ∷ buf) = allwrite answers (b ∷ buf)
allwrite (broken ∷ answers) (b ∷ buf) = ok (record { status = 1; bytes = []; answers = answers })
allwrite (moved more ∷ answers) (b ∷ buf) = allwrite answers (drop more buf) >>= λ w.
    ok (record w { bytes = (b ∷ take more buf) ++ w.bytes })

-- struct buffer, with what `op` has taken so far and its answers to come in the place of fd and op
pub record Buffer : Type 0 where
  pub x : List ℕ
  pub p : ℕ
  pub n : ℕ
  pub sent : List ℕ
  pub answers : List Answer

-- buffer_init
pub init : List Answer → List ℕ → ℕ → Buffer
init answers buf len = record { x = buf; p = 0; n = len; sent = []; answers = answers }

-- what a call of allwrite changes
pub send : Buffer → List ℕ → Run (ℕ × Buffer)
send s bytes = allwrite s.answers bytes >>= λ w.
    ok (w.status, record s { sent = s.sent ++ w.bytes; answers = w.answers })

-- buffer_flush
unfoldable pub flush : Buffer → Run (ℕ × Buffer)
flush s = let all = send (record s { p = 0 }) (take s.p s.x) in if s.p == 0 then ok (0, s) else all

-- buffer_putalign, with one unit of fuel for each turn of the loop
pub putalign_loop : ℕ → Buffer → List ℕ → Run (ℕ × Buffer)
putalign_loop zero s buf = out_of_fuel
putalign_loop (suc fuel) s buf =
    let room = s.n - s.p in
    let turn : Run (ℕ × Buffer) = do
      x ← memcpy s.x s.p buf room
      (status, s') ← flush (record s { x = x; p = s.p + room })
      let next = putalign_loop fuel s' (drop room buf)
      if status == 0 then next else ok (status, s')
    in let rest : Run (ℕ × Buffer) =
        memcpy s.x s.p buf (length buf) >>= λ x. ok (0, record s { x = x; p = s.p + length buf }) in
      if ltb room (length buf) then turn else rest

pub putalign : Buffer → List ℕ → Run (ℕ × Buffer)
unfolding putalign_loop
putalign s buf = putalign_loop (length buf + 2) s buf

-- buffer_putflush
unfoldable pub putflush : Buffer → List ℕ → Run (ℕ × Buffer)
putflush s buf = do
  (status, s') ← flush s
  let all = send s' buf
  if status == 0 then all else ok (status, s')
