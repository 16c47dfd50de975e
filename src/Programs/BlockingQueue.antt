-- ===== src/Programs/BlockingQueue.antt =====
-- multi_server_thread_blocking_queue.c: 16 workers behind a queue, which `server` fills.
pub mod Intake
pub mod System
pub mod Whole
use os_study.Prelude.{true, ℕ, Bool, Option, none, some, List, [], ◌∷◌, codes}
use os_study.CLib.Buffer.{Buffer}
use os_study.Http.Types.{ReqLine, HttpMethod, HttpVersion}
use os_study.Http.ReadLine.{Reading}
use os_study.Http.ReadLine
use os_study.Http.Method
use os_study.Http.Version
use os_study.Server.World.{
  ReadResult, Text, World, Run, Call, Cmd, pure, ◌>>=◌, ◌>>◌, call, sem_wait, Os,
}
use os_study.Server.Reply
use os_study.Server.Files
use os_study.Server.Listing
use os_study.Server.Stats
use os_study.Queue.{Ptr, State, queue_init, queue_put, queue_destroy}
use os_study.Programs.Startup.{Booting, create_statistics, fresh_stats}
use os_study.Programs.Startup
use os_study.Programs.Accept.{Setup, Accepted, End, listen_error, reuseaddr_error, accept_error}

abbrev is_dir : Os → Text → Bool
is_dir = Files.is_dir

abbrev pipe_read : Text → Option (List ReadResult) → Cmd (Option (List ReadResult))
pipe_read = Listing.pipe_read

abbrev ls_version_one : Os → ℕ → Text → Option (List ReadResult) → Cmd (Unit {0})
ls_version_one = Listing.ls_version_one true Stats.write_code_thread

abbrev ls_version_two : Os → ℕ → Text → Cmd (Unit {0})
ls_version_two = Files.ls_version_two Stats.write_code_thread

abbrev read_request_line : Buffer → ReqLine → Text → Reading
read_request_line = ReadLine.read_request_line

abbrev response : Os → ℕ → ℕ → Text → Option Text → Cmd (Unit {0})
response = Reply.response Stats.write_code_thread

abbrev parse_method : Buffer → HttpMethod
parse_method = Method.parse_method

abbrev parse_version : Buffer → ℕ → Option (HttpVersion × Buffer)
parse_version = Version.parse_version

abbrev req_parser : Os → ℕ → Buffer → Cmd Buffer
req_parser = Files.req_parser Stats.write_code_thread

-- A connection, and the address that `calloc` returns in its `queue_put`.
pub record Queued : Type 0 where
  pub mq : Ptr
  pub connfd : ℕ

-- The queue and how the loop ends, or `none` at a bad access.
unfoldable pub server_loop : List (Accepted Queued) → State → Option (End × State)
server_loop [] s = some (End.waiting, s)
server_loop (Accepted.conn c ∷ xs) s = elim (queue_put c.mq c.connfd s) [
  | none ↦ none
  | some s' ↦ server_loop xs s'
]
server_loop (Accepted.eintr ∷ xs) s = server_loop xs s
server_loop (Accepted.failed ∷ xs) s = some (End.err_sys accept_error, s)

-- The 16 threads that it starts before the loop are `Worker.do_call`.
unfoldable server : Setup → List (Accepted Queued) → State → Option (End × State)
unfolding listen_error server_loop
server setup xs s = elim (listen_error reuseaddr_error setup) [
  | some text ↦ some (End.err_sys text, s)
  | none ↦ server_loop xs s
]

-- With the queue, as `queue_destroy` leaves it.
unfoldable exit_handler : Bool → State → Cmd State
unfolding call Startup.remove_segment
exit_handler created s = do
  Startup.remove_segment created
  call Call.destroy_sem
  call (Call.write_error (codes "main process end\n"))
  pure (queue_destroy s)

unfoldable sigint_handler : Bool → State → Cmd (End × State)
unfolding exit_handler
sigint_handler created s = do s' ← exit_handler created s; pure (End.exits 1, s')

-- With what the workers find: the statistics, the semaphore and the queue.
unfoldable pub main :
    Booting → Setup → List (Accepted Queued) → World → State → Option (End × World × State)
unfolding create_statistics server
main b setup xs w s = elim (create_statistics b) [
  | some text ↦ some (End.err_sys text, w, s)
  | none ↦ elim (server setup xs (queue_init s)) [
    | none ↦ none
    | some (e, s') ↦ some (e, record w { stats = fresh_stats; sem = 1 }, s')
  ]
]
