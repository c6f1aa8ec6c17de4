-- ===== src/Socket/Open.antt =====
-- c/src/socket/socket_io.c: opening a connection or a listening socket on the first address
-- that serves.
pub mod Held
use code_notebook.Base.{ℕ, List, [], ◌∷◌}
use code_notebook.System.{
  getnameinfo, socket, close, reuse_address, bind_address, listening, Reply, done, failed, Kernel,
  Outcome, moved, error, timed_out, M, pure, ◌>>=◌, ◌>>◌, call, ndelay_on, ndelay_off,
}
use code_notebook.Socket.{connect_timeout}

module _ (k : Kernel) where
  abbrev close_and : ℕ → M Outcome → M Outcome
  close_and fd next = do call k (close fd); next

  -- After `connect_timeout`: `break`, or close the descriptor and `continue`.
  abbrev kept_or_closed : Outcome → ℕ → M Outcome → M Outcome
  kept_or_closed error fd continue = close_and fd continue
  kept_or_closed timed_out fd continue = pure (moved fd)
  kept_or_closed (moved n) fd continue = pure (moved fd)

  abbrev connect_opened : Reply → ℕ → ℕ → M Outcome → M Outcome
  connect_opened (failed e) address timeout continue = continue
  connect_opened (done fd) address timeout continue = do
    r ← connect_timeout k fd address timeout
    kept_or_closed r fd continue

  -- `socket_connect` over the addresses that `getaddrinfo` has given; `[]` is `p == NULL`.
  unfoldable pub socket_connect : List ℕ → ℕ → M Outcome
  socket_connect [] timeout = pure error
  socket_connect (address ∷ rest) timeout =
      let continue = socket_connect rest timeout in
      (do r ← call k (socket address); connect_opened r address timeout continue)

  -- `listen(listen_fd, backlog)`, after the loop.
  abbrev listen_on : Reply → ℕ → M Outcome
  listen_on (failed e) fd = close_and fd (pure error)
  listen_on (done n) fd = do ndelay_off k fd; pure (moved fd)

  abbrev step_or_close : Reply → ℕ → M Outcome → M Outcome → M Outcome
  step_or_close (failed e) fd continue next = close_and fd continue
  step_or_close (done n) fd continue next = next

  abbrev start_listening : ℕ → M Outcome
  start_listening fd = do heard ← call k (listening fd); listen_on heard fd

  abbrev bind_opened : ℕ → ℕ → M Outcome → M Outcome
  bind_opened fd address continue = do
    bound ← call k (bind_address fd address)
    step_or_close bound fd continue (start_listening fd)

  abbrev reuse_opened : ℕ → ℕ → M Outcome → M Outcome
  reuse_opened fd address continue = do
    reused ← call k (reuse_address fd)
    step_or_close reused fd continue (bind_opened fd address continue)

  abbrev bind_to : ℕ → ℕ → M Outcome → M Outcome
  bind_to fd address continue = do
    nonblocking ← ndelay_on k fd
    step_or_close nonblocking fd continue (reuse_opened fd address continue)

  abbrev listen_opened : Reply → ℕ → M Outcome → M Outcome
  listen_opened (failed e) address continue = continue
  listen_opened (done fd) address continue = bind_to fd address continue

  abbrev listen_named : Reply → ℕ → M Outcome → M Outcome
  listen_named (failed e) address continue = continue
  listen_named (done n) address continue = do
    r ← call k (socket address)
    listen_opened r address continue

  -- `socket_listen` over the addresses that `getaddrinfo` has given.
  pub socket_listen : List ℕ → M Outcome
  socket_listen [] = pure error
  socket_listen (address ∷ rest) =
      let continue = socket_listen rest in
      (do named ← call k (getnameinfo address); listen_named named address continue)
