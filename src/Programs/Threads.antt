-- ===== src/Programs/Threads.antt =====
-- multi_server_thread.c: a detached thread for each connection.
use os_study.Prelude.{true, ℕ, Bool, Option, none, some, List, [], ◌∷◌}
use os_study.CLib.Buffer.{Buffer, zeroed}
use os_study.Http.Types.{ReqLine, HttpMethod, HttpVersion, blank_req}
use os_study.Http.ReadLine.{Reading}
use os_study.Http.ReadLine
use os_study.Http.Method
use os_study.Http.Version
use os_study.Server.World.{ReadResult, Text, Call, How, Cmd, pure, ◌>>◌, call, sem_wait, Os}
use os_study.Server.Stats.{record_code}
use os_study.Server.Reply
use os_study.Server.Files
use os_study.Server.Listing
use os_study.Server.Worker.{Conn, handle_reading}
use os_study.Programs.Startup.{Booting, create_statistics, init_statistics}
use os_study.Programs.Startup
use os_study.Programs.Accept.{Setup, Accepted, End, listen_error, reuseaddr_error, accept_error}

-- No `sem_post`.
unfoldable pub write_code : ℕ → Cmd (Unit {0})
unfolding sem_wait record_code
write_code code = do sem_wait; record_code code

abbrev is_dir : Os → Text → Bool
is_dir = Files.is_dir

abbrev pipe_read : Text → Option (List ReadResult) → Cmd (Option (List ReadResult))
pipe_read = Listing.pipe_read

abbrev ls_version_one : Os → ℕ → Text → Option (List ReadResult) → Cmd (Unit {0})
ls_version_one = Listing.ls_version_one true write_code

abbrev ls_version_two : Os → ℕ → Text → Cmd (Unit {0})
ls_version_two = Files.ls_version_two write_code

abbrev pub read_request_line : Buffer → ReqLine → Text → Reading
read_request_line = ReadLine.read_request_line

abbrev response : Os → ℕ → ℕ → Text → Option Text → Cmd (Unit {0})
response = Reply.response write_code

abbrev parse_method : Buffer → HttpMethod
parse_method = Method.parse_method

abbrev parse_version : Buffer → ℕ → Option (HttpVersion × Buffer)
parse_version = Version.parse_version

abbrev req_parser : Os → ℕ → Buffer → Cmd Buffer
req_parser = Files.req_parser write_code

-- The tests on the request are those of `Worker.answer`. The buffers are the thread's own.
unfoldable pub do_call : Conn → Cmd (Unit {0})
unfolding call
do_call c = do
  handle_reading c.os c.fd (read_request_line zeroed blank_req c.input)
  call (Call.shutdown c.fd How.shut_rdwr)
  call (Call.close_conn c.fd)

unfoldable pub server_loop : List (Accepted ℕ) → Cmd End
unfolding call
server_loop [] = pure End.waiting
server_loop (Accepted.conn connfd ∷ xs) = do call (Call.start_thread connfd); server_loop xs
server_loop (Accepted.eintr ∷ xs) = server_loop xs
server_loop (Accepted.failed ∷ xs) = pure (End.err_sys accept_error)

unfoldable server : Setup → List (Accepted ℕ) → Cmd End
unfolding listen_error server_loop
server s xs = elim (listen_error reuseaddr_error s) [
  | some text ↦ pure (End.err_sys text)
  | none ↦ server_loop xs
]

abbrev exit_handler : Bool → Cmd (Unit {0})
exit_handler = Startup.exit_handler_threads

abbrev sigint_handler : Bool → Cmd End
sigint_handler = Startup.sigint_handler

unfoldable pub main : Booting → Setup → List (Accepted ℕ) → Cmd End
unfolding create_statistics init_statistics server
main b s xs = elim (create_statistics b) [
  | some text ↦ pure (End.err_sys text)
  | none ↦ do init_statistics; server s xs
]
