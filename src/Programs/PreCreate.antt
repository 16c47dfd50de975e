-- ===== src/Programs/PreCreate.antt =====
-- multi_server_pre_create_thread.c: 16 threads that all wait in `accept`.
use os_study.Prelude.{true, none, some, ℕ, Bool, Option, List, [], ◌∷◌}
use os_study.CLib.Buffer.{Buffer}
use os_study.Http.Types.{ReqLine, HttpMethod, HttpVersion}
use os_study.Http.ReadLine.{Reading}
use os_study.Http.ReadLine
use os_study.Http.Method
use os_study.Http.Version
use os_study.Server.World.{ReadResult, Text, Cmd, pure, ◌>>=◌, ◌>>◌, sem_wait, Os}
use os_study.Server.Stats.{record_code}
use os_study.Server.Reply
use os_study.Server.Files
use os_study.Server.Listing
use os_study.Server.Worker.{Conn, Locals, fresh_locals, serve}
use os_study.Programs.Startup.{Booting, create_statistics, init_statistics}
use os_study.Programs.Startup
use os_study.Programs.Accept.{Setup, Accepted, End, listen_error, reuseaddr_error, accept_error}

unfoldable pub write_code : ℕ → Cmd (Unit {0})
unfolding sem_wait record_code
write_code code = do sem_wait; record_code code

abbrev is_dir : Os → Text → Bool
is_dir = Files.is_dir

abbrev pipe_read : Text → Option (List ReadResult) → Cmd (Option (List ReadResult))
pipe_read = Listing.pipe_read

abbrev ls_version_one : Os → ℕ → Text → Option (List ReadResult) → Cmd (Unit {0})
ls_version_one = Listing.ls_version_one true write_code

abbrev ls_version_two : Os → ℕ → Text → Cmd (Unit {0})
ls_version_two = Files.ls_version_two write_code

abbrev read_request_line : Buffer → ReqLine → Text → Reading
read_request_line = ReadLine.read_request_line

abbrev response : Os → ℕ → ℕ → Text → Option Text → Cmd (Unit {0})
response = Reply.response write_code

abbrev parse_method : Buffer → HttpMethod
parse_method = Method.parse_method

abbrev parse_version : Buffer → ℕ → Option (HttpVersion × Buffer)
parse_version = Version.parse_version

abbrev req_parser : Os → ℕ → Buffer → Cmd Buffer
req_parser = Files.req_parser write_code

-- The loop of a thread, with the buffers that it keeps. A round is `Worker.serve`: the same text
-- from `read_request_line` to `shutdown`. `err_sys` ends every thread.
unfoldable pub do_call_loop : List (Accepted Conn) → Locals → Cmd End
unfolding serve
do_call_loop [] l = pure End.waiting
do_call_loop (Accepted.conn c ∷ xs) l = do l' ← serve c l; do_call_loop xs l'
do_call_loop (Accepted.eintr ∷ xs) l = do_call_loop xs l
do_call_loop (Accepted.failed ∷ xs) l = pure (End.err_sys accept_error)

unfoldable pub do_call : List (Accepted Conn) → Cmd End
unfolding do_call_loop
do_call xs = do_call_loop xs fresh_locals

-- `server`, up to the threads: `none` where they run.
unfoldable server : Setup → Option Text
unfolding listen_error
server s = listen_error reuseaddr_error s

abbrev exit_handler : Bool → Cmd (Unit {0})
exit_handler = Startup.exit_handler_threads

abbrev sigint_handler : Bool → Cmd End
sigint_handler = Startup.sigint_handler

-- `main`, up to the threads.
unfoldable pub main : Booting → Setup → Cmd (Option Text)
unfolding create_statistics init_statistics server
main b s = elim (create_statistics b) [
  | some text ↦ pure (some text)
  | none ↦ do init_statistics; pure (server s)
]
