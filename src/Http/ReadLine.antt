-- ===== src/Http/ReadLine.antt =====
-- `read_request_line` of multi_server.c, up to its reply on an error. The same text stands in the
-- other programs.
pub mod Phases
pub mod Parts
pub mod Inversion
pub mod Grammar
pub mod Bounds
use os_study.Prelude.{ℕ, ◌+◌, ◌&&◌, Option, none, some, List, [], ◌∷◌, ltb, ◌==◌, if◌then◌else◌}
use os_study.CLib.Buffer.{Buffer, update}
use os_study.Http.Types.{ReqLine, HttpVersion, buffsize, uri_limit, lf, cr, sp, is_valid}
use os_study.Http.Method.{parse_method}
use os_study.Http.Version.{parse_version}

-- `enum req_state`
pub data ReqState : Type 0 where
  method url version done : ReqState

-- The locals of the loop, with the two buffers that it fills.
pub record Reader : Type 0 where
  pub state : ReqState
  pub recv_num : ℕ
  pub recv_buffer : Buffer
  pub req_line : ReqLine

-- How one round ends: `go` back to `recv`, `return 0`, `goto ERROR`, or a write out of bounds.
pub data Round : Type 0 where
  go : Reader → Round
  complete : Reader → Round
  bad : Reader → Round
  fault : Round

-- `recv_buffer[recv_num++] = c`
unfoldable pub put_recv : ℕ → Reader → Round
put_recv c r =
    if ltb r.recv_num buffsize
    then Round.go
        (record r { recv_num = r.recv_num + 1; recv_buffer = update r.recv_buffer r.recv_num c })
    else Round.fault

-- A store to `req_uri[recv_num]`, which has URI_LIMIT bytes, before the round goes on with `next`.
abbrev pub put_uri : ℕ → Reader → Reader → Round
put_uri c r next =
    if ltb r.recv_num uri_limit
    then Round.go (record next {
      req_line = record r.req_line { req_uri = update r.req_line.req_uri r.recv_num c };
    })
    else Round.fault

-- `parse_version(…); recv_num = 0; ++state`
abbrev pub end_version : Reader → Option (HttpVersion × Buffer) → Round
end_version r none = Round.fault
end_version r (some (v, b)) = Round.go (record r {
  state = ReqState.done;
  recv_num = 0;
  recv_buffer = b;
  req_line = record r.req_line { version = v };
})

unfoldable pub dispatch : ReqState → ℕ → Reader → Round
unfolding is_valid put_recv
dispatch ReqState.method c r =
    if is_valid c
    then put_recv c r
    else if c == sp
    then Round.go (record r {
      state = ReqState.url;
      recv_num = 0;
      req_line = record r.req_line { method = parse_method r.recv_buffer };
    })
    else Round.bad r
dispatch ReqState.url c r =
    if is_valid c && ltb (r.recv_num + 1) uri_limit
    then put_uri c r (record r { recv_num = r.recv_num + 1 })
    else if c == sp && ltb (r.recv_num + 1) uri_limit
    then put_uri 0 r (record r { state = ReqState.version; recv_num = 0 })
    else Round.bad r
dispatch ReqState.version c r =
    if is_valid c
    then put_recv c r
    else if c == cr
    then end_version r (parse_version r.recv_buffer r.recv_num)
    else Round.bad r
dispatch ReqState.done c r = if c == lf then Round.complete r else Round.bad r

-- The outcome of the loop, with the bytes of the connection that were not read.
pub data Reading : Type 0 where
  line : Reader → List ℕ → Reading
  error : Reader → List ℕ → Reading
  overrun : Reading

-- The loop. On `[]` `recv` returns 0 or -1.
unfoldable pub read_loop : List ℕ → Reader → Reading
read_loop [] r = error r []
read_loop (c ∷ cs) r = elim (dispatch r.state c r) [
  | Round.go r' ↦ read_loop cs r'
  | Round.complete r' ↦ line r' cs
  | Round.bad r' ↦ error r' cs
  | Round.fault ↦ overrun
]

abbrev pub start : Buffer → ReqLine → Reader
start b q = record { state = ReqState.method; recv_num = 0; recv_buffer = b; req_line = q }

-- `b` and `q` are what `recv_buffer` and `req_line` hold on entry.
unfoldable pub read_request_line : Buffer → ReqLine → List ℕ → Reading
read_request_line b q input = read_loop input (start b q)
