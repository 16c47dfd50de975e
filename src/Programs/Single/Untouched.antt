-- ===== src/Programs/Single/Untouched.antt =====
-- Requests of server.c.
use os_study.Prelude.{
  ℕ, ◌≤◌, ◌<◌, ◌/◌, ◌≡◌, ◌≢◌, refl, arith, length, Option, none, some, List, [], ◌∷◌, ◌++◌, codes,
  ltb, not, ◌||◌,
}
use os_study.Prelude.Int.{is_minus_one}
use os_study.CLib.Buffer.{Buffer, zeroed}
use os_study.Http.Types.{ReqLine, buffsize, uri_limit, blank_req}
use os_study.Http.ReadLine.{Reading}
use os_study.Http.ReadLine
use os_study.Http.ReadLine.Bounds.{read_request_line-ne-overrun}
use os_study.Server.World.{Text, Stats, World, ok, Call, How, call, send_text, ReadResult}
use os_study.Server.Reply.{crlf, status_line, html_header, printed}
use os_study.Server.Files.{cut_query, path_of}
use os_study.Server.Worker.{is_get}
use os_study.Server.Ensures.{
  Returns-ok, Ensures, Ensures-pure, Ensures-bind, Ensures-if, Ensures-send_text,
}
use os_study.Server.Fits.{MessageFits, status_line-fits, append-fits}
use os_study.Programs.Single.{
  Opening, Visitor, response, send_file, send_opening, parse_uri, answer, handle_reading,
  accept_request,
}

-- The texts of the operating system are short.
abbrev pub OpeningFits : Opening → Type 0
OpeningFits (Opening.opened reads) = Unit
OpeningFits (Opening.absent mesg) = length mesg < 4096

pub record VisitorFits (v : Visitor) : Type 0 where
  pub null : length v.conn.os.null_text < 4096
  pub errors : (path : Text) → OpeningFits (v.opening path)

-- Nothing but the calls and the process's own globals has changed.
pub record Untouched (s : Stats) (k : ℕ) (w : World) : Type 0 where
  pub stats : w.stats ≡ s
  pub sem : w.sem ≡ k

module _ (s : Stats) (k : ℕ) where
  abbrev P : World → Type 0
  P = Untouched s k

  calls : (c : Call) → Ensures P P (call c)
  unfolding call
  calls c = record { at = λ w h. record { stats = h.stats; sem = h.sem } }

  module _ (v : Visitor) (fits : VisitorFits v) where
    text : (t : Text) → length t < 8192 → Ensures P P (send_text v.conn.fd t)
    text = Ensures-send_text P calls v.conn.fd

    printed-fits : (m : Option Text) → MessageFits m → length (printed v.conn.os m) < 4096
    printed-fits none h = fits.null
    printed-fits (some t) h = h

    Ensures-response :
        (code : ℕ) (reason : Text) (message : Option Text)
        → code / 100 ≤ 5
        → length reason < 4096
        → MessageFits message
        → Ensures P P (response v.conn.os v.conn.fd code reason message)
    unfolding response
    Ensures-response code reason message c h m =
        Ensures-bind P P P _ _ (text (status_line code reason) (status_line-fits code reason c h))
          λ _. Ensures-bind P P P _ _ (text html_header (omega arith)) λ _.
            Ensures-bind P P P _ _ (text crlf (omega arith)) λ _.
              Ensures-bind P P P _ _
                (text (printed v.conn.os message ++ crlf) (
                  append-fits (printed v.conn.os message) crlf (printed-fits message m)
                    (omega arith)))
                λ _. text crlf (omega arith)

    Ensures-send_file : (reads : List ReadResult) → Ensures P P (send_file v.conn.fd reads)
    unfolding send_file
    Ensures-send_file [] =
        Ensures-bind P P P _ _ (text crlf (omega arith)) λ _. text crlf (omega arith)
    Ensures-send_file (ReadResult.chunk c cs ∷ rest) =
        Ensures-bind P P P _ _ (calls (Call.send v.conn.fd (c ∷ cs))) λ _. Ensures-send_file rest
    Ensures-send_file (ReadResult.eintr ∷ rest) = Ensures-send_file rest
    Ensures-send_file (ReadResult.failed ∷ rest) = Ensures-pure P tt

    Ensures-send_opening :
        (path : Text) (o : Opening) → OpeningFits o → Ensures P P (send_opening v path o)
    Ensures-send_opening path (Opening.absent mesg) h =
        Ensures-response 404 (codes "Not found") (some mesg) (omega arith) (omega arith) h
    Ensures-send_opening path (Opening.opened reads) h =
        Ensures-bind P P P _ _ (calls (Call.open_file path)) λ _.
          Ensures-bind P P P _ _
            (text (status_line 200 (codes "Ok"))
              (status_line-fits 200 (codes "Ok") (omega arith) (omega arith)))
            λ _.
              Ensures-bind P P P _ _ (text crlf (omega arith))
                λ _. Ensures-bind P P P _ _ (text crlf (omega arith)) λ _. Ensures-send_file reads

    Ensures-parse_uri : (uri : Buffer) → Ensures P P (parse_uri v uri)
    unfolding parse_uri
    Ensures-parse_uri uri =
        let (i, uri') = cut_query uri_limit uri 0 in
        let path = path_of uri' in
        Ensures-if P P (ltb 0 i) (Ensures-send_opening path (v.opening path) (fits.errors path))
          (Ensures-response 200 (codes "Ok") none (omega arith) (omega arith) tt)

    Ensures-answer : (q : ReqLine) → Ensures P P (answer v q)
    unfolding answer
    Ensures-answer q =
        Ensures-if P P (not (is_get q.method))
          (Ensures-response 405 (codes "Method Not Allowed") none (omega arith) (omega arith) tt)
          (Ensures-if P P (is_minus_one q.version.major || is_minus_one q.version.major)
            (Ensures-response 505 (codes "HTTP Version Not Supported") none (omega arith)
              (omega arith) tt)
            (Ensures-parse_uri q.req_uri))

    Ensures-handle_reading : (r : Reading) → r ≢ Reading.overrun → Ensures P P (handle_reading v r)
    Ensures-handle_reading (Reading.line r rest) h = Ensures-answer r.req_line
    Ensures-handle_reading (Reading.error r rest) h =
        Ensures-response 400 (codes "Bad request") none (omega arith) (omega arith) tt
    Ensures-handle_reading Reading.overrun h = absurd (h refl)

    Ensures-accept_request : length v.conn.input ≤ buffsize → Ensures P P (accept_request v)
    unfolding accept_request
    Ensures-accept_request h =
        Ensures-bind P P P _ _
          (Ensures-handle_reading (ReadLine.read_request_line zeroed blank_req v.conn.input)
            (read_request_line-ne-overrun zeroed blank_req v.conn.input h))
          λ _. calls (Call.shutdown v.conn.fd How.shut_rdwr)

-- A thread of server.c serves every request of at most BUFFSIZE bytes to its end, where the texts of
-- the operating system fit their buffers, in every state: it waits for nothing, and leaves the
-- statistics and the semaphore of the other programs alone.
pub accept_request-Untouched :
    (v : Visitor) (w : World)
    → VisitorFits v
    → length v.conn.input ≤ buffsize
    → (u : Unit {0}) × (w' : World) × (accept_request v w ≡ ok u w') × Untouched w.stats w.sem w'
accept_request-Untouched v w fits short =
    Returns-ok (Untouched w.stats w.sem) (accept_request v w) (
      (Ensures-accept_request w.stats w.sem v fits short).at w
        (record { stats = refl; sem = refl }))
