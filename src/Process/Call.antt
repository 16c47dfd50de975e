-- ===== src/Process/Call.antt =====
-- `do_call` of multi_server.c and of the programs with a pool of processes.
use os_study.Prelude.{
  ℕ, Bool, true, false, not, ◌&&◌, ◌||◌, Option, none, some, codes, ◌==◌, if◌then◌else◌,
}
use os_study.Prelude.Int.{is_minus_one}
use os_study.CLib.Buffer.{Buffer, zeroed, strncasecmp_eq, c_string}
use os_study.Http.Types.{ReqLine, blank_req}
use os_study.Http.ReadLine.{Reading, read_request_line}
use os_study.Server.World.{Text, fault, Call, How, Cmd, pure, ◌>>=◌, ◌>>◌, call, Os}
use os_study.Server.Reply.{response}
use os_study.Server.Stats.{write_code}
use os_study.Server.Files.{is_dir, path_of, ls_version_two, req_parser}
use os_study.Server.Worker.{is_get, is_statistics, statistics_text, load_requests, read_total}
use os_study.Process.Bash.{Script, handle_bash}

-- A connection with what its request meets; `script` says how a command runs.
pub record Client : Type 0 where
  pub fd : ℕ
  pub input : Text
  pub os : Os
  pub script : Text → Option Script

-- `req_uri[0] != 0 && req_uri[5] == '/' && strncasecmp("bash", req_uri + 1, 4) == 0`
unfoldable pub is_bash : Buffer → Bool
unfolding strncasecmp_eq
is_bash uri = not (uri 0 == 0) && (uri 5 == b'/' && strncasecmp_eq (codes "bash") uri 1 4)

-- `req_uri + 6` as a string
unfoldable pub command_of : Buffer → Text
unfolding c_string
command_of uri = c_string 1018 uri 6

-- The tests on the request, over the way the program reads `requests`.
module _ (total_of : Cmd ℕ) (c : Client) where
  unfoldable pub statistics : Cmd (Unit {0})
  unfolding response write_code
  statistics = do
    total ← total_of
    response write_code c.os c.fd 200 (codes "Ok") (some (statistics_text total))

  unfoldable pub answer : ReqLine → Cmd (Unit {0})
  unfolding response write_code is_statistics is_bash command_of is_dir path_of ls_version_two
      handle_bash statistics
  answer q =
      if not (is_get q.method)
      then response write_code c.os c.fd 405 (codes "Method Not Allowed") none
      else if is_minus_one q.version.major || is_minus_one q.version.major
      then response write_code c.os c.fd 505 (codes "HTTP Version Not Supported") none
      else if is_statistics q.req_uri
      then statistics
      else if is_bash q.req_uri
      then handle_bash c.os c.fd (command_of q.req_uri) (c.script (command_of q.req_uri))
      else if is_dir c.os (path_of q.req_uri)
      then ls_version_two write_code c.os c.fd (path_of q.req_uri)
      else (req_parser write_code c.os c.fd q.req_uri >> pure tt)

  abbrev pub handle_reading : Reading → Cmd (Unit {0})
  handle_reading (Reading.line r rest) = answer r.req_line
  handle_reading (Reading.error r rest) =
      response write_code c.os c.fd 400 (codes "Bad request") none
  handle_reading Reading.overrun = λ w. fault

  unfoldable pub handle : Cmd (Unit {0})
  unfolding response write_code answer
  handle = handle_reading (read_request_line zeroed blank_req c.input)

-- The pool of processes: multi_server_pre_forked_pool_of_processes.c.
unfoldable pub do_call_pool : Client → Cmd (Unit {0})
unfolding call handle read_total
do_call_pool c = do handle read_total c; call (Call.shutdown c.fd How.shut_wr)

-- Which of the calls that attach to the shared statistics fail.
pub record Attach : Type 0 where
  pub sem_failed : Bool
  pub ftok_failed : Bool
  pub shmat_null : Bool

-- The label `end` of multi_server.c, with whether `share_address` is attached.
unfoldable pub finish : Client → Bool → Cmd (Unit {0})
unfolding call
finish c attached = do
  (if attached then call Call.detach_stats else pure tt)
  call Call.close_sem
  call (Call.shutdown c.fd How.shut_rd)

-- A child of multi_server.c. It reads `requests` with no semaphore.
unfoldable pub do_call : Client → Attach → Cmd (Unit {0})
unfolding handle load_requests finish
do_call c a =
    if a.sem_failed || (a.ftok_failed || a.shmat_null)
    then finish c false
    else (do handle load_requests c; finish c true)
