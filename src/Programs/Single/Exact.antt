-- ===== src/Programs/Single/Exact.antt =====
-- What a client of server.c receives.
use os_study.Prelude.{
  ℕ, ◌≤◌, ◌<◌, ◌/◌, ◌≡◌, refl, subst, arith, length, Option, none, some, List, [], ◌∷◌, ◌++◌,
  append-nil, codes, ltb, not, ◌||◌, Bool, true, false, if◌then◌else◌,
}
use os_study.Prelude.Int.{is_minus_one}
use os_study.CLib.Buffer.{Buffer, zeroed}
use os_study.Http.Types.{ReqLine, uri_limit, blank_req}
use os_study.Http.ReadLine.{Reading}
use os_study.Server.World.{Text, World, ok, Call, How, Cmd, ◌>>=◌, send_text, ReadResult, Os}
use os_study.Server.Reply.{crlf, status_line, html_header, printed}
use os_study.Server.Files.{cut_query, path_of}
use os_study.Server.Worker.{is_get}
use os_study.Server.Fits.{MessageFits, status_line-fits, append-fits}
use os_study.Process.Stream.{
  part, Lasting, lasting, received, Sends, Sends-pure, Sends-bind, Sends-send, Sends-text,
  Sends-silent, Sends-run,
}
use os_study.Programs.Single.{
  Opening, Visitor, response, send_file, send_opening, parse_uri, answer, handle_reading,
  accept_request, read_request_line,
}
use os_study.Programs.Single.Untouched.{OpeningFits, VisitorFits}

-- A page with a message, a null pointer where there is none.
abbrev pub page : Os → ℕ → Text → Option Text → Text
page os code reason message =
    status_line code reason ++ (html_header ++ (crlf ++ ((printed os message ++ crlf) ++ crlf)))

-- A file that is read to its end is followed by two CRLF.
abbrev pub contents : List ReadResult → Text
contents [] = crlf ++ crlf
contents (ReadResult.chunk c cs ∷ rest) = (c ∷ cs) ++ contents rest
contents (ReadResult.eintr ∷ rest) = contents rest
contents (ReadResult.failed ∷ rest) = []

abbrev pub opened : Os → Opening → Text
opened os (Opening.absent mesg) = page os 404 (codes "Not found") (some mesg)
opened os (Opening.opened reads) =
    status_line 200 (codes "Ok") ++ (crlf ++ (crlf ++ contents reads))

module _ (v : Visitor) where
  abbrev pub uri_answer : Buffer → Text
  uri_answer uri =
      let (i, uri') = cut_query uri_limit uri 0 in
      if ltb 0 i
      then opened v.conn.os (v.opening (path_of uri'))
      else page v.conn.os 200 (codes "Ok") none

  abbrev pub line_answer : ReqLine → Text
  line_answer q =
      if not (is_get q.method)
      then page v.conn.os 405 (codes "Method Not Allowed") none
      else if is_minus_one q.version.major || is_minus_one q.version.major
      then page v.conn.os 505 (codes "HTTP Version Not Supported") none
      else uri_answer q.req_uri

  abbrev pub visitor_answer : Reading → Option Text
  visitor_answer (Reading.line t rest) = some (line_answer t.req_line)
  visitor_answer (Reading.error t rest) = some (page v.conn.os 400 (codes "Bad request") none)
  visitor_answer Reading.overrun = none

module _ (v : Visitor) (fits : VisitorFits v) (s : Lasting) where
  -- It leaves everything as it was.
  abbrev Says : Text → Cmd (Unit {0}) → Type 0
  Says b m = Sends v.conn.fd s s b m

  Says-bind :
      {A : Type 0} (b1 b2 : Text) (m : Cmd A) (f : A → Cmd (Unit {0}))
      → Sends v.conn.fd s s b1 m
      → ((x : A) → Says b2 (f x))
      → Says (b1 ++ b2) (m >>= f)
  Says-bind b1 b2 m f h g = Sends-bind v.conn.fd s s s b1 b2 m f h g

  Says-text : (t : Text) → length t < 8192 → Says t (send_text v.conn.fd t)
  Says-text t h = Sends-text v.conn.fd s t h

  Says-if :
      (t : Bool) (b c : Text) (m n : Cmd (Unit {0}))
      → Says b m
      → Says c n
      → Says (if t then b else c) (if t then m else n)
  Says-if true b c m n h k = h
  Says-if false b c m n h k = k

  printed-fits : (m : Option Text) → MessageFits m → length (printed v.conn.os m) < 4096
  printed-fits none h = fits.null
  printed-fits (some t) h = h

  response-Says :
      (code : ℕ) (reason : Text) (message : Option Text)
      → code / 100 ≤ 5
      → length reason < 4096
      → MessageFits message
      → Says (page v.conn.os code reason message) (response v.conn.os v.conn.fd code reason message)
  unfolding response
  response-Says code reason message c h m =
      let body = printed v.conn.os message ++ crlf in
      Says-bind _ _ _ _ (Says-text (status_line code reason) (status_line-fits code reason c h))
        λ _. Says-bind _ _ _ _ (Says-text html_header (omega arith)) λ _.
          Says-bind _ _ _ _ (Says-text crlf (omega arith)) λ _.
            Says-bind _ _ _ _
              (Says-text body (
                append-fits (printed v.conn.os message) crlf (printed-fits message m)
                  (omega arith)))
              λ _. Says-text crlf (omega arith)

  send_file-Says : (reads : List ReadResult) → Says (contents reads) (send_file v.conn.fd reads)
  unfolding send_file
  send_file-Says [] =
      Says-bind _ _ _ _ (Says-text crlf (omega arith)) λ _. Says-text crlf (omega arith)
  send_file-Says (ReadResult.chunk c cs ∷ rest) =
      Says-bind _ _ _ _ (Sends-send v.conn.fd s (c ∷ cs)) λ _. send_file-Says rest
  send_file-Says (ReadResult.eintr ∷ rest) = send_file-Says rest
  send_file-Says (ReadResult.failed ∷ rest) = Sends-pure v.conn.fd s tt

  send_opening-Says :
      (path : Text) (o : Opening)
      → OpeningFits o
      → Says (opened v.conn.os o) (send_opening v path o)
  unfolding received
  send_opening-Says path (Opening.absent mesg) h =
      response-Says 404 (codes "Not found") (some mesg) (omega arith) (omega arith) h
  send_opening-Says path (Opening.opened reads) h =
      Says-bind _ _ _ _ (Sends-silent v.conn.fd s (Call.open_file path) λ x calls. refl) λ _.
        Says-bind _ _ _ _
          (Says-text (status_line 200 (codes "Ok"))
            (status_line-fits 200 (codes "Ok") (omega arith) (omega arith)))
          λ _.
            Says-bind _ _ _ _ (Says-text crlf (omega arith))
              λ _. Says-bind _ _ _ _ (Says-text crlf (omega arith)) λ _. send_file-Says reads

  parse_uri-Says : (uri : Buffer) → Says (uri_answer v uri) (parse_uri v uri)
  unfolding parse_uri
  parse_uri-Says uri =
      let (i, uri') = cut_query uri_limit uri 0 in
      let path = path_of uri' in
      Says-if (ltb 0 i) _ _ _ _ (send_opening-Says path (v.opening path) (fits.errors path))
        (response-Says 200 (codes "Ok") none (omega arith) (omega arith) tt)

  answer-Says : (q : ReqLine) → Says (line_answer v q) (answer v q)
  unfolding answer
  answer-Says q =
      Says-if (not (is_get q.method)) _ _ _ _
        (response-Says 405 (codes "Method Not Allowed") none (omega arith) (omega arith) tt)
        (Says-if (is_minus_one q.version.major || is_minus_one q.version.major) _ _ _ _
          (response-Says 505 (codes "HTTP Version Not Supported") none (omega arith) (omega arith)
            tt)
          (parse_uri-Says q.req_uri))

  -- Where there is a text, the run says it.
  abbrev SaysAny : Option Text → Cmd (Unit {0}) → Type 0
  SaysAny none m = Unit {0}
  SaysAny (some b) m = Says b m

  handle_reading-Says : (r : Reading) → SaysAny (visitor_answer v r) (handle_reading v r)
  handle_reading-Says (Reading.line u rest) = answer-Says u.req_line
  handle_reading-Says (Reading.error u rest) =
      response-Says 400 (codes "Bad request") none (omega arith) (omega arith) tt
  handle_reading-Says Reading.overrun = tt

-- server.c brings each request to its end, unless its request line overruns recv_buffer: the client
-- receives exactly the bytes of its page or file, and no other client anything, and the statistics
-- and the semaphore are as they were. The texts of the system fit.
pub accept_request-answered :
    (v : Visitor) (w : World) (t : Text)
    → VisitorFits v
    → visitor_answer v (read_request_line zeroed blank_req v.conn.input) ≡ some t
    → (w' : World) × (accept_request v w ≡ ok tt w')
      × (lasting w' ≡ lasting w)
      × ((x : ℕ) → received x w'.calls ≡ received x w.calls ++ part x v.conn.fd t)
unfolding accept_request received
accept_request-answered v w t fits e =
    let s = lasting w in
    let r = read_request_line zeroed blank_req v.conn.input in
    let (x, w', run, stays, got) = Sends-run v.conn.fd s t w (accept_request v) (
      subst (λ b. Sends v.conn.fd s s b (accept_request v)) (append-nil t)
        (Sends-bind v.conn.fd s s s _ _ _ _
          (subst (λ o. SaysAny v fits s o (handle_reading v r)) e (handle_reading-Says v fits s r))
          λ _. Sends-silent v.conn.fd s (Call.shutdown v.conn.fd How.shut_rdwr) λ y calls. refl)) in
    (w', run, stays, got)
