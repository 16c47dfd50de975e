-- ===== src/Programs/Pool.antt =====
-- multi_server_pre_forked_pool_of_processes.c: 32 processes that all wait in `accept`.
pub mod System
pub mod Whole
pub mod Tally
use os_study.Prelude.{
  ℕ, zero, suc, ◌+◌, Bool, true, false, codes, Option, none, some, List, [], ◌∷◌, if◌then◌else◌,
}
use os_study.CLib.Buffer.{Buffer}
use os_study.Http.Types.{ReqLine, HttpMethod, HttpVersion}
use os_study.Http.ReadLine.{Reading}
use os_study.Http.ReadLine
use os_study.Http.Method
use os_study.Http.Version
use os_study.Server.World.{ReadResult, Text, Cmd, pure, ◌>>◌, sem_wait, sem_post, Os}
use os_study.Server.Stats.{record_code}
use os_study.Server.Reply
use os_study.Server.Files
use os_study.Server.Listing
use os_study.Process.Bash.{Wait, Script}
use os_study.Process.Bash
use os_study.Programs.Startup
use os_study.Programs.Fork
use os_study.Process.Call.{Client, do_call_pool}
use os_study.Programs.Startup.{
  Platform, sem_file, sem_user1_file, Ipc, sem_unlink, sem_open, Booting, fresh_stats,
  create_statistics,
}
use os_study.Programs.Accept.{Setup, Accepted, End, listen_error, reuseport_error, accept_error}

unfoldable pub write_code : ℕ → Cmd (Unit {0})
unfolding sem_wait record_code sem_post
write_code code = do sem_wait; record_code code; sem_post

abbrev is_dir : Os → Text → Bool
is_dir = Files.is_dir

abbrev pipe_read : Text → Option (List ReadResult) → Cmd (Option (List ReadResult))
pipe_read = Listing.pipe_read

abbrev ls_version_one : Os → ℕ → Text → Option (List ReadResult) → Cmd (Unit {0})
ls_version_one = Listing.ls_version_one false write_code

abbrev ls_version_two : Os → ℕ → Text → Cmd (Unit {0})
ls_version_two = Files.ls_version_two write_code

abbrev read_request_line : Buffer → ReqLine → Text → Reading
read_request_line = ReadLine.read_request_line

abbrev response : Os → ℕ → ℕ → Text → Option Text → Cmd (Unit {0})
response = Reply.response write_code

abbrev parse_method : Buffer → HttpMethod
parse_method = Method.parse_method

abbrev parse_version : Buffer → ℕ → Option (HttpVersion × Buffer)
parse_version = Version.parse_version

abbrev req_parser : Os → ℕ → Buffer → Cmd Buffer
req_parser = Files.req_parser write_code

abbrev handle_bash : Os → ℕ → Text → Option Script → Cmd (Unit {0})
handle_bash = Bash.handle_bash

-- Whether `sem_open` and `shmat` fail, after the socket listens.
pub record Shared : Type 0 where
  pub sem_failed : Bool
  pub shmat_null : Bool

-- The handlers of SIGALRM, by the call of `signal` that comes before an `alarm`.
pub data Handler : Type 0 where
  stop_script count : Handler

abbrev pub handled : Handler → Cmd (Unit {0})
handled Handler.stop_script = Bash.handle_sigalrm_stop_scipt
handled Handler.count = Bash.handle_sigalrm

-- What a process meets in its loop: what `accept` does, or a SIGALRM before the next connection,
-- which no program takes back once it has called `alarm`.
pub data Turn : Type 0 where
  accepted : Accepted Client → Turn
  sigalrm : Handler → Turn

unfoldable pub server_loop : List Turn → Cmd End
unfolding do_call_pool Bash.handle_sigalrm_stop_scipt Bash.handle_sigalrm
server_loop [] = pure End.waiting
server_loop (Turn.accepted (Accepted.conn c) ∷ xs) = do do_call_pool c; server_loop xs
server_loop (Turn.accepted Accepted.eintr ∷ xs) = server_loop xs
server_loop (Turn.accepted Accepted.failed ∷ xs) = pure (End.err_sys accept_error)
server_loop (Turn.sigalrm handler ∷ xs) = do handled handler; server_loop xs

unfoldable pub server : Setup → Shared → List Turn → Cmd End
unfolding listen_error server_loop
server s shared xs = elim (listen_error reuseport_error s) [
  | some text ↦ pure (End.err_sys text)
  | none ↦
      if shared.sem_failed
      then pure (End.exits 1)
      else if shared.shmat_null
      then pure (End.exits 1)
      else server_loop xs
]

-- `main` as far as its waiting loop: how it ends, or that it goes on, the number of processes that
-- run `server`, and what they find.
pub record Started : Type 0 where
  pub ending : End
  pub processes : ℕ
  pub ipc : Ipc

-- The loop that forks, with `k` rounds left, from the index `i`: `fails` says which `fork` does.
unfoldable pub create_processes : ℕ → (ℕ → Bool) → ℕ → ℕ × Bool
create_processes zero fails i = (i, false)
create_processes (suc k) fails i =
    let rest = create_processes k fails (i + 1) in if fails i then (i, true) else rest

unfoldable pub main : Platform → Booting → (ℕ → Bool) → Bool → Ipc → Started
unfolding create_statistics sem_unlink sem_open create_processes
main platform b fails handler_failed m = elim (create_statistics b) [
  | some text ↦ record { ending = End.err_sys text; processes = 0; ipc = m }
  | none ↦
      let created = sem_unlink (sem_file platform) (record m { segment = fresh_stats }) in
      let (n, failed) = create_processes 32 fails 0 in
      if failed
      then record {
        ending = End.err_sys (codes "create process error\n");
        processes = n;
        ipc = created;
      }
      else record {
        ending = if handler_failed then End.exits 1 else End.waiting;
        processes = n;
        ipc = sem_open (sem_user1_file platform) 0 (sem_unlink (sem_user1_file platform) created);
      }
]

abbrev pipe_read_v2 : Text → Option Script → Cmd (Option Script)
pipe_read_v2 = Bash.pipe_read_v2

abbrev handle_sigalrm : Cmd (Unit {0})
handle_sigalrm = Bash.handle_sigalrm

abbrev handle_sigalrm_stop_scipt : Cmd (Unit {0})
handle_sigalrm_stop_scipt = Bash.handle_sigalrm_stop_scipt

abbrev handle_bash_stop_child_process_group : ℕ → List Wait → Cmd (Unit {0})
handle_bash_stop_child_process_group = Bash.handle_bash_stop_child_process_group

abbrev stop_scirpt_timeout : ℕ → List Wait → Cmd (Unit {0})
stop_scirpt_timeout = Bash.stop_scirpt_timeout

abbrev exit_handler : Bool → ℕ → Cmd End
exit_handler = Startup.exit_handler

abbrev siguser1_signo_handler : Platform → Ipc → Ipc
siguser1_signo_handler = Startup.siguser1_signo_handler

abbrev open_semaphores : Platform → Ipc → Ipc
open_semaphores = Fork.open_semaphores

abbrev handler_siguser1 : ℕ → List ℕ → Cmd (List ℕ)
handler_siguser1 = Fork.handler_siguser1
