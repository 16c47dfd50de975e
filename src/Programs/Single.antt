-- ===== src/Programs/Single.antt =====
-- server.c: the first server, with a detached thread for each connection and no statistics.
pub mod Untouched
pub mod Exact
use os_study.Prelude.{
  ℕ, Bool, ◌||◌, not, Option, none, some, List, [], ◌∷◌, ◌++◌, codes, ltb, if◌then◌else◌,
}
use os_study.Prelude.Int.{is_minus_one}
use os_study.CLib.Buffer.{Buffer, zeroed}
use os_study.Http.Types.{ReqLine, HttpMethod, HttpVersion, blank_req, uri_limit}
use os_study.Http.ReadLine.{Reader, Reading}
use os_study.Http.ReadLine
use os_study.Http.Method
use os_study.Http.Version
use os_study.Server.World.{
  Text, World, Run, fault, Call, How, Cmd, pure, ◌>>=◌, ◌>>◌, call, send_text, ReadResult, Os,
}
use os_study.Server.Reply.{crlf, printed, status_line, html_header}
use os_study.Server.Files.{cut_query, path_of}
use os_study.Server.Worker.{Conn, is_get}
use os_study.Programs.Accept.{Setup, Accepted, End, listen_error, reuseaddr_error, accept_error}

abbrev parse_method : Buffer → HttpMethod
parse_method = Method.parse_method

abbrev parse_version : Buffer → ℕ → Option (HttpVersion × Buffer)
parse_version = Version.parse_version

abbrev pub read_request_line : Buffer → ReqLine → Text → Reading
read_request_line = ReadLine.read_request_line

-- What `open` does: the results of the reads up to the 0, or the text of the error.
pub data Opening : Type 0 where
  opened : List ReadResult → Opening
  absent : Text → Opening

-- One more CRLF than the other programs, and no `write_code`.
unfoldable pub response : Os → ℕ → ℕ → Text → Option Text → Cmd (Unit {0})
unfolding send_text
response os connfd status_code reason_phrase message = do
  send_text connfd (status_line status_code reason_phrase)
  send_text connfd html_header
  send_text connfd crlf
  send_text connfd (printed os message ++ crlf)
  send_text connfd crlf

-- The two CRLF that end a file.
abbrev pub end_of_file : ℕ → Cmd (Unit {0})
end_of_file connfd = do send_text connfd crlf; send_text connfd crlf

-- On an error other than EINTR the function returns: the client sees no end.
unfoldable pub send_file : ℕ → List ReadResult → Cmd (Unit {0})
unfolding call send_text
send_file connfd [] = end_of_file connfd
send_file connfd (ReadResult.chunk c cs ∷ rest) = do
  call (Call.send connfd (c ∷ cs))
  send_file connfd rest
send_file connfd (ReadResult.eintr ∷ rest) = send_file connfd rest
send_file connfd (ReadResult.failed ∷ rest) = pure tt

-- A connection, with what `open` does to a path.
pub record Visitor : Type 0 where
  pub conn : Conn
  pub opening : Text → Opening

module _ (v : Visitor) where
  abbrev pub send_opening : Text → Opening → Cmd (Unit {0})
  send_opening path (Opening.absent mesg) =
      response v.conn.os v.conn.fd 404 (codes "Not found") (some mesg)
  send_opening path (Opening.opened reads) = do
    call (Call.open_file path)
    send_text v.conn.fd (status_line 200 (codes "Ok"))
    send_text v.conn.fd crlf
    send_text v.conn.fd crlf
    send_file v.conn.fd reads

  unfoldable pub parse_uri : Buffer → Cmd (Unit {0})
  unfolding call send_text response send_file cut_query path_of
  parse_uri uri =
      let (i, uri') = cut_query uri_limit uri 0 in
      if ltb 0 i
      then send_opening (path_of uri') (v.opening (path_of uri'))
      else response v.conn.os v.conn.fd 200 (codes "Ok") none

  unfoldable pub answer : ReqLine → Cmd (Unit {0})
  unfolding response parse_uri
  answer q =
      if not (is_get q.method)
      then response v.conn.os v.conn.fd 405 (codes "Method Not Allowed") none
      else if is_minus_one q.version.major || is_minus_one q.version.major
      then response v.conn.os v.conn.fd 505 (codes "HTTP Version Not Supported") none
      else parse_uri q.req_uri

  abbrev pub handle_reading : Reading → Cmd (Unit {0})
  handle_reading (Reading.line r rest) = answer r.req_line
  handle_reading (Reading.error r rest) =
      response v.conn.os v.conn.fd 400 (codes "Bad request") none
  handle_reading Reading.overrun = λ w. fault

  unfoldable pub accept_request : Cmd (Unit {0})
  unfolding call response answer
  accept_request = do
    handle_reading (read_request_line zeroed blank_req v.conn.input)
    call (Call.shutdown v.conn.fd How.shut_rdwr)

unfoldable pub server_loop : List (Accepted ℕ) → Cmd End
unfolding call
server_loop [] = pure End.waiting
server_loop (Accepted.conn connfd ∷ xs) = do call (Call.start_thread connfd); server_loop xs
server_loop (Accepted.eintr ∷ xs) = server_loop xs
server_loop (Accepted.failed ∷ xs) = pure (End.err_sys accept_error)

unfoldable server : Setup → List (Accepted ℕ) → Cmd End
unfolding listen_error server_loop
server s xs = elim (listen_error reuseaddr_error s) [
  | some text ↦ pure (End.err_sys text)
  | none ↦ server_loop xs
]
