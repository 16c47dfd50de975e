-- ===== src/Programs/Ports.antt =====
-- multi_server_thread_Listening_on_multiple_ports.c: one thread watches several listening sockets
-- and feeds the queue of the workers.
pub mod Opening
pub mod Watching
pub mod Sets
pub mod Arrivals
pub mod Loop
pub mod Whole
use os_study.Prelude.{
  ℕ, zero, suc, ◌+◌, ◌-◌, ◌%◌, ◌^◌, ◌≤◌, Bool, true, false, ◌&&◌, ◌||◌, Option, none, some, List,
  [], ◌∷◌, ◌++◌, codes, ltb, leb, ◌==◌, if◌then◌else◌, length,
}
use os_study.CLib.Buffer.{Buffer}
use os_study.Http.Types.{ReqLine, HttpMethod, HttpVersion}
use os_study.Http.ReadLine.{Reading}
use os_study.Http.ReadLine
use os_study.Http.Method
use os_study.Http.Version
use os_study.Server.World.{
  ReadResult, Text, World, Run, Call, Cmd, pure, ◌>>=◌, ◌>>◌, call, sem_wait, Os,
}
use os_study.Server.Stats.{record_code}
use os_study.Server.Reply
use os_study.Server.Files
use os_study.Server.Listing
use os_study.Server.Worker.{Conn, Locals}
use os_study.Server.Worker
use os_study.Queue.{Ptr, State}
use os_study.Queue
use os_study.Programs.Startup.{Booting, create_statistics, fresh_stats}
use os_study.Programs.Startup
use os_study.Programs.Accept.{Setup, End, listen_error, reuseaddr_error}

unfoldable pub write_code : ℕ → Cmd (Unit {0})
unfolding sem_wait record_code
write_code code = do sem_wait; record_code code

abbrev is_dir : Os → Text → Bool
is_dir = Files.is_dir

abbrev pipe_read : Text → Option (List ReadResult) → Cmd (Option (List ReadResult))
pipe_read = Listing.pipe_read

abbrev ls_version_one : Os → ℕ → Text → Option (List ReadResult) → Cmd (Unit {0})
ls_version_one = Listing.ls_version_one true write_code

abbrev ls_version_two : Os → ℕ → Text → Cmd (Unit {0})
ls_version_two = Files.ls_version_two write_code

abbrev read_request_line : Buffer → ReqLine → Text → Reading
read_request_line = ReadLine.read_request_line

abbrev response : Os → ℕ → ℕ → Text → Option Text → Cmd (Unit {0})
response = Reply.response write_code

abbrev parse_method : Buffer → HttpMethod
parse_method = Method.parse_method

abbrev parse_version : Buffer → ℕ → Option (HttpVersion × Buffer)
parse_version = Version.parse_version

abbrev req_parser : Os → ℕ → Buffer → Cmd Buffer
req_parser = Files.req_parser write_code

abbrev do_call : List Conn → Cmd Locals
do_call = Worker.do_call

abbrev queue_init : State → State
queue_init = Queue.queue_init

abbrev queue_destroy : State → State
queue_destroy = Queue.queue_destroy

abbrev pub queue_put : Ptr → ℕ → State → Option State
queue_put = Queue.queue_put

abbrev queue_get : State → Queue.Got
queue_get = Queue.queue_get

-- A socket that cannot be opened is only logged; the next call fails on it.
unfoldable pub create_server_socket : Setup → Option Text
unfolding listen_error
create_server_socket s = listen_error reuseaddr_error (record s { socket_failed = false })

-- `-1` as an `int`
abbrev pub minus_one : ℕ
minus_one = 2 ^ 32 - 1

-- `sock < 0`
abbrev pub is_negative : ℕ → Bool
is_negative sock = leb (2 ^ 31) sock

-- An `accept` of `start_server`: the address that `calloc` returns in `queue_put`, with the
-- connection; EINTR; or another error, which is logged and queued.
pub data Taken : Type 0 where
  conn : Ptr → ℕ → Taken
  eintr : Taken
  failed : Ptr → Taken

-- `select` leaves in `readfds` the sockets that are ready. A set is the list of its members.
abbrev pub FdSet : Type 0
FdSet = List ℕ

-- FD_ISSET
abbrev pub fd_isset : ℕ → FdSet → Bool
fd_isset sock [] = false
fd_isset sock (fd ∷ fds) = (sock == fd) || fd_isset sock fds

-- FD_SET
unfoldable pub fd_set : ℕ → FdSet → FdSet
fd_set sock fds = if fd_isset sock fds then fds else sock ∷ fds

-- The sockets that are watched, before the loop: each member of `servSocks` that is not negative.
unfoldable pub watch : List ℕ → FdSet → FdSet
unfolding fd_set
watch [] fds = fds
watch (sock ∷ socks) fds =
    let rest = watch socks (fd_set sock fds) in
    let skipped = watch socks fds in if is_negative sock then skipped else rest

-- `readfds` and the queue as one pass over `servSocks` leaves them, or a bad access of `queue_put`.
pub record Pass : Type 0 where
  pub readfds : FdSet
  pub state : State

-- The socket is ready: `continue` skips FD_SET on EINTR.
abbrev pub serve_ready : ℕ → Taken → Pass → Option Pass
serve_ready sock (Taken.conn mq connfd) p = elim (queue_put mq connfd p.state) [
  | none ↦ none
  | some s ↦ some (record { readfds = fd_set sock p.readfds; state = s })
]
serve_ready sock Taken.eintr p = some p
serve_ready sock (Taken.failed mq) p = elim (queue_put mq minus_one p.state) [
  | none ↦ none
  | some s ↦ some (record { readfds = fd_set sock p.readfds; state = s })
]

-- One member of `servSocks`, with what `accept` would do on it.
unfoldable pub visit : ℕ → Taken → Pass → Option Pass
unfolding fd_set
visit sock taken p =
    if is_negative sock
    then some p
    else if fd_isset sock p.readfds
    then serve_ready sock taken p
    else some (record p { readfds = fd_set sock p.readfds })

-- The inner loop.
unfoldable pub pass_over : List (ℕ × Taken) → Pass → Option Pass
unfolding visit
pass_over [] p = some p
pass_over ((sock, taken) ∷ rest) p = elim (visit sock taken p) [
  | none ↦ none
  | some p' ↦ pass_over rest p'
]

-- `select` takes the sockets out of `readfds` that are not ready.
unfoldable pub select : FdSet → FdSet → FdSet
select ready [] = []
select ready (fd ∷ fds) =
    let rest = select ready fds in if fd_isset fd ready then fd ∷ rest else rest

-- A round of the outer loop: `select` fails, or it finds sockets ready, and `accept` does as said on
-- each member of `servSocks`.
pub data Round : Type 0 where
  select_failed : Round
  selected : FdSet → List (ℕ × Taken) → Round

-- How the loop ends, with what is watched and queued then, or `none` at a bad access.
unfoldable pub start_loop : List Round → Pass → Option (End × Pass)
unfolding select pass_over
start_loop [] p = some (End.waiting, p)
start_loop (Round.select_failed ∷ rounds) p =
    some (End.err_sys (codes "select on multiple sockets"), p)
start_loop (Round.selected ready visits ∷ rounds) p =
    elim (pass_over visits (record p { readfds = select ready p.readfds })) [
      | none ↦ none
      | some p' ↦ start_loop rounds p'
    ]

unfoldable pub start_server : List ℕ → List Round → State → Option (End × Pass)
unfolding watch start_loop
start_server servSocks rounds s =
    start_loop rounds (record { readfds = watch servSocks []; state = s })

unfoldable exit_handler : Bool → State → Cmd State
unfolding call Startup.remove_segment
exit_handler created s = do
  Startup.remove_segment created
  call Call.destroy_sem
  call (Call.write_error (codes "main process end\n"))
  pure (queue_destroy s)

unfoldable sigint_handler : Bool → State → Cmd (End × State)
unfolding exit_handler
sigint_handler created s = do s' ← exit_handler created s; pure (End.exits 1, s')

-- A write to `servSocks`, `none` outside of it.
unfoldable pub set_sock : ℕ → ℕ → List ℕ → Option (List ℕ)
set_sock i sock [] = none
set_sock zero sock (x ∷ xs) = some (sock ∷ xs)
set_sock (suc i) sock (x ∷ xs) = elim (set_sock i sock xs) [
  | none ↦ none
  | some xs' ↦ some (x ∷ xs')
]

-- What the calls of `createServerSocket` for `argv[i]` do, and the socket.
abbrev pub Calls : Type 0
Calls = ℕ → Setup × ℕ

-- The loop over the arguments, with `k` rounds left, from the index `i`; `next` is `sock_num + 1`. The
-- text of `err_sys`, if a call fails, and `servSocks`; or `none` at a write outside of it.
unfoldable pub opens : Calls → ℕ → ℕ → ℕ → List ℕ → Option (Option Text × List ℕ)
unfolding create_server_socket set_sock
opens calls zero i next serv_socks = some (none, serv_socks)
opens calls (suc k) i next serv_socks =
    if leb 32 i
    then some (some (codes "Too many listening sockets"), serv_socks)
    else elim (create_server_socket (calls i).0) [
      | some text ↦ some (some text, serv_socks)
      | none ↦ elim (set_sock next (calls i).1 serv_socks) [
        | none ↦ none
        | some serv_socks' ↦ opens calls k (i + 1) (next + 1) serv_socks'
      ]
    ]

abbrev pub filled : ℕ → List ℕ
filled zero = []
filled (suc n) = minus_one ∷ filled n

-- What `main` leaves to the workers and to `start_server`. `servSocks` is 32 zeros where `main` exits
-- before it fills it with -1.
pub record Prepared : Type 0 where
  pub ending : End
  pub world : World
  pub state : State
  pub serv_socks : List ℕ

abbrev zeros : ℕ → List ℕ
zeros zero = []
zeros (suc n) = 0 ∷ zeros n

-- `main` of `argc` arguments up to the threads, `none` at a write outside of `servSocks`.
unfoldable pub main : ℕ → Booting → Bool → Calls → World → State → Option Prepared
unfolding create_statistics opens
main argc b chdir_failed calls w s =
    if ltb argc 3
    then some (record { ending = End.exits 1; world = w; state = s; serv_socks = zeros 32 })
    else elim (create_statistics b) [
      | some text ↦
          some (record { ending = End.err_sys text; world = w; state = s; serv_socks = zeros 32 })
      | none ↦
          let w' = record w { stats = fresh_stats; sem = 1 } in
          let s' = queue_init s in
          if chdir_failed
          then some (record {
            ending = End.err_sys (codes "call chdir error");
            world = w';
            state = s';
            serv_socks = filled 32;
          })
          else elim (opens calls (argc - 2) 1 0 (filled 32)) [
            | none ↦ none
            | some (some text, serv_socks) ↦ some (record {
              ending = End.err_sys text;
              world = w';
              state = s';
              serv_socks = serv_socks;
            })
            | some (none, serv_socks) ↦
                some
                  (record { ending = End.waiting; world = w'; state = s'; serv_socks = serv_socks })
          ]
    ]
