-- ===== src/Server/Worker.antt =====
-- The worker of multi_server_thread_blocking_queue.c: `do_call`.
use os_study.Prelude.{
  ℕ, ◌-◌, ◌^◌, Bool, true, false, not, ◌&&◌, ◌||◌, none, some, List, [], ◌∷◌, ◌++◌, codes, ltb,
  ◌==◌, if◌then◌else◌,
}
use os_study.Prelude.Int.{is_minus_one}
use os_study.CLib.Buffer.{Buffer, zeroed, strncasecmp_eq}
use os_study.CLib.Decimal.{print_int}
use os_study.Http.Types.{ReqLine, HttpMethod, blank_req, lf}
use os_study.Http.ReadLine.{Reading, read_request_line}
use os_study.Server.World.{
  Text, ok, fault, Call, How, Cmd, pure, ◌>>=◌, ◌>>◌, call, sem_wait, sem_post, Os,
}
use os_study.Server.Reply.{response}
use os_study.Server.Stats.{write_code_thread}
use os_study.Server.Files.{is_dir, path_of, ls_version_two, req_parser}

-- A connection: its descriptor, what the client sends on it, and the file system that its request
-- meets.
pub record Conn : Type 0 where
  pub fd : ℕ
  pub input : Text
  pub os : Os

-- The buffers that a worker allocates once and uses for every request.
pub record Locals : Type 0 where
  pub recv_buffer : Buffer
  pub req_buf : ReqLine

abbrev pub fresh_locals : Locals
fresh_locals = record { recv_buffer = zeroed; req_buf = blank_req }

abbrev pub is_get : HttpMethod → Bool
is_get HttpMethod.get = true
is_get _ = false

-- `req_uri[0] != 0 && strncasecmp("statistics", req_uri + 1, sizeof("statistics")) == 0`
unfoldable pub is_statistics : Buffer → Bool
unfolding strncasecmp_eq
is_statistics uri = not (uri 0 == 0) && strncasecmp_eq (codes "statistics") uri 1 11

-- "%d" of an `int`
abbrev pub print_signed : ℕ → Text
print_signed w = if ltb w (2 ^ 31) then print_int w else codes "-" ++ print_int (2 ^ 32 - w)

abbrev pub statistics_text : ℕ → Text
statistics_text total = codes "requests: " ++ (print_signed total ++ lf ∷ [])

-- `total = share_address->requests`
unfoldable pub load_requests : Cmd ℕ
load_requests w = ok w.stats.requests w

-- `sem_wait(&sem); int total = share_address->requests; sem_post(&sem);`
unfoldable pub read_total : Cmd ℕ
unfolding sem_wait sem_post load_requests
read_total = do sem_wait; total ← load_requests; sem_post; pure total

module _ (os : Os) (connfd : ℕ) where
  unfoldable pub statistics : Cmd (Unit {0})
  unfolding read_total response
  statistics = do
    total ← read_total
    response write_code_thread os connfd 200 (codes "Ok") (some (statistics_text total))

  -- The tests on the parsed request, in their order. The request line comes back as they leave it.
  unfoldable pub answer : ReqLine → Cmd ReqLine
  unfolding response is_statistics is_dir path_of ls_version_two req_parser statistics
  answer q =
      if not (is_get q.method)
      then (do response write_code_thread os connfd 405 (codes "Method Not Allowed") none; pure q)
      else if is_minus_one q.version.major || is_minus_one q.version.major
      then (do
        response write_code_thread os connfd 505 (codes "HTTP Version Not Supported") none
        pure q)
      else if is_statistics q.req_uri
      then (do statistics; pure q)
      else if is_dir os (path_of q.req_uri)
      then (do ls_version_two write_code_thread os connfd (path_of q.req_uri); pure q)
      else (do
        uri ← req_parser write_code_thread os connfd q.req_uri
        pure (record q { req_uri = uri }))

  abbrev pub handle_reading : Reading → Cmd Locals
  handle_reading (Reading.line r rest) = do
    q ← answer r.req_line
    pure (record { recv_buffer = r.recv_buffer; req_buf = q })
  handle_reading (Reading.error r rest) = do
    response write_code_thread os connfd 400 (codes "Bad request") none
    pure (record { recv_buffer = r.recv_buffer; req_buf = r.req_line })
  handle_reading Reading.overrun = λ w. fault

-- One round of the loop, from the return of `queue_get` on.
unfoldable pub serve : Conn → Locals → Cmd Locals
unfolding call answer response
serve c l = do
  l' ← handle_reading c.os c.fd (read_request_line l.recv_buffer l.req_buf c.input)
  call (Call.shutdown c.fd How.shut_wr)
  pure l'

-- The loop, over the connections that the worker takes from the queue.
unfoldable pub do_call_loop : List Conn → Locals → Cmd Locals
do_call_loop [] l = pure l
do_call_loop (c ∷ cs) l = do l' ← serve c l; do_call_loop cs l'

unfoldable pub do_call : List Conn → Cmd Locals
do_call cs = do_call_loop cs fresh_locals
