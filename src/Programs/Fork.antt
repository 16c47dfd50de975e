-- ===== src/Programs/Fork.antt =====
-- multi_server.c: a child process for each connection.
pub mod Reports
pub mod System
pub mod Children
pub mod Exact
pub mod Whole
use os_study.Prelude.{ℕ, zero, suc, Bool, none, some, List, [], ◌∷◌, codes, if◌then◌else◌}
use os_study.Server.World.{Stats, ok, Call, Cmd, pure, ◌>>=◌, ◌>>◌, call}
use os_study.Server.Worker.{read_total}
use os_study.Process.Call.{Client, Attach, do_call}
use os_study.Programs.Startup.{
  Platform, sem_file, sem_user1_file, share_memory_file_path, Ipc, sem_unlink, sem_open, Booting,
  fresh_stats, create_statistics,
}
use os_study.Programs.Accept.{Setup, Accepted, End, listen_error, reuseaddr_error, accept_error}

-- A connection, and whether `fork` fails.
pub record Forked : Type 0 where
  pub connfd : ℕ
  pub fork_failed : Bool

-- The parent.
unfoldable pub server_loop : List (Accepted Forked) → Cmd End
unfolding call
server_loop [] = pure End.waiting
server_loop (Accepted.conn f ∷ xs) =
    let rest = server_loop xs in
    if f.fork_failed
    then pure (End.err_sys (codes "Fork error"))
    else (do call (Call.fork_child f.connfd); call (Call.close_conn f.connfd); rest)
server_loop (Accepted.eintr ∷ xs) = server_loop xs
server_loop (Accepted.failed ∷ xs) = pure (End.err_sys accept_error)

unfoldable server : Setup → List (Accepted Forked) → Cmd End
unfolding listen_error server_loop
server s xs = elim (listen_error reuseaddr_error s) [
  | some text ↦ pure (End.err_sys text)
  | none ↦ server_loop xs
]

-- The child.
unfoldable pub child : Client → Attach → Cmd (Unit {0})
unfolding call do_call
child c a = do call Call.close_listener; do_call c a

-- `main`, up to `server`: how it ends, or that it goes on, with what it leaves to its children.
unfoldable pub main : Platform → Booting → Bool → Ipc → End × Ipc
unfolding create_statistics sem_unlink sem_open
main platform b fork_failed m = elim (create_statistics b) [
  | some text ↦ (End.err_sys text, m)
  | none ↦
      let unlinked =
        sem_unlink (sem_user1_file platform)
          (sem_unlink (sem_file platform) (record m { segment = fresh_stats })) in
      let m' = sem_open (sem_user1_file platform) 0 unlinked in
      if fork_failed then (End.exits 1, m') else (End.waiting, m')
]

-- The process that prints on SIGUSR1: what it opens.
unfoldable pub open_semaphores : Platform → Ipc → Ipc
unfolding sem_open
open_semaphores platform m =
    sem_open (sem_user1_file platform) 0 (sem_open share_memory_file_path 1 m)

-- The loop of `handler_siguser1`, over the signals: what it prints for each, the newest first.
unfoldable pub handler_siguser1 : ℕ → List ℕ → Cmd (List ℕ)
unfolding read_total
handler_siguser1 zero printed = pure printed
handler_siguser1 (suc signals) printed = do
  value ← read_total
  handler_siguser1 signals (value ∷ printed)
