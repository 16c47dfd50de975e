-- ===== src/Programs/PassFd.antt =====
-- multi_server_pass_socket_fd_to_child_processes.c. In spite of its name it passes no descriptor: it is
-- the program of `Pool` with an unused socket name.
use os_study.Prelude.{false, ℕ, Bool, Option, List}
use os_study.CLib.Buffer.{Buffer}
use os_study.Http.Types.{ReqLine, HttpMethod, HttpVersion}
use os_study.Http.ReadLine.{Reading}
use os_study.Http.ReadLine
use os_study.Http.Method
use os_study.Http.Version
use os_study.Server.World.{ReadResult, Text, Cmd, ◌>>◌, sem_wait, sem_post, Os}
use os_study.Server.Stats.{record_code}
use os_study.Server.Reply
use os_study.Server.Files
use os_study.Server.Listing
use os_study.Process.Bash.{Wait, Script}
use os_study.Process.Bash
use os_study.Programs.Startup.{Platform, Ipc, Booting}
use os_study.Programs.Startup
use os_study.Programs.Fork
use os_study.Process.Call.{Client, do_call_pool}
use os_study.Programs.Accept.{Setup, End}
use os_study.Programs.Pool.{Started, Shared}
use os_study.Programs.Pool

unfoldable pub write_code : ℕ → Cmd (Unit {0})
unfolding sem_wait record_code sem_post
write_code code = do sem_wait; record_code code; sem_post

abbrev is_dir : Os → Text → Bool
is_dir = Files.is_dir

abbrev pipe_read : Text → Option (List ReadResult) → Cmd (Option (List ReadResult))
pipe_read = Listing.pipe_read

abbrev ls_version_one : Os → ℕ → Text → Option (List ReadResult) → Cmd (Unit {0})
ls_version_one = Listing.ls_version_one false write_code

abbrev ls_version_two : Os → ℕ → Text → Cmd (Unit {0})
ls_version_two = Files.ls_version_two write_code

abbrev read_request_line : Buffer → ReqLine → Text → Reading
read_request_line = ReadLine.read_request_line

abbrev response : Os → ℕ → ℕ → Text → Option Text → Cmd (Unit {0})
response = Reply.response write_code

abbrev parse_method : Buffer → HttpMethod
parse_method = Method.parse_method

abbrev parse_version : Buffer → ℕ → Option (HttpVersion × Buffer)
parse_version = Version.parse_version

abbrev req_parser : Os → ℕ → Buffer → Cmd Buffer
req_parser = Files.req_parser write_code

abbrev handle_bash : Os → ℕ → Text → Option Script → Cmd (Unit {0})
handle_bash = Bash.handle_bash

abbrev do_call : Client → Cmd (Unit {0})
do_call = do_call_pool

abbrev server : Setup → Shared → List Pool.Turn → Cmd End
server = Pool.server

abbrev pipe_read_v2 : Text → Option Script → Cmd (Option Script)
pipe_read_v2 = Bash.pipe_read_v2

abbrev handle_sigalrm : Cmd (Unit {0})
handle_sigalrm = Bash.handle_sigalrm

abbrev handle_sigalrm_stop_scipt : Cmd (Unit {0})
handle_sigalrm_stop_scipt = Bash.handle_sigalrm_stop_scipt

abbrev handle_bash_stop_child_process_group : ℕ → List Wait → Cmd (Unit {0})
handle_bash_stop_child_process_group = Bash.handle_bash_stop_child_process_group

abbrev stop_scirpt_timeout : ℕ → List Wait → Cmd (Unit {0})
stop_scirpt_timeout = Bash.stop_scirpt_timeout

abbrev exit_handler : Bool → ℕ → Cmd End
exit_handler = Startup.exit_handler

abbrev siguser1_signo_handler : Platform → Ipc → Ipc
siguser1_signo_handler = Startup.siguser1_signo_handler

abbrev open_semaphores : Platform → Ipc → Ipc
open_semaphores = Fork.open_semaphores

abbrev handler_siguser1 : ℕ → List ℕ → Cmd (List ℕ)
handler_siguser1 = Fork.handler_siguser1

-- The test on the length of UNIX_SOCKET_NAME only sets `errno`.
abbrev main : Platform → Booting → (ℕ → Bool) → Bool → Ipc → Started
main = Pool.main
