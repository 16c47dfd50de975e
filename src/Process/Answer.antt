-- ===== src/Process/Answer.antt =====
-- The answers of the programs of multi_server/ but server.c, as the client sees them: a status, and
-- the bytes that come back on the connection.
pub mod Gives
pub mod Handlers
pub mod Stopping
pub mod Scripts
pub mod Exact
use os_study.Prelude.{
  ℕ, ◌||◌, Bool, not, Option, true, false, ◌&&◌, ◌==◌, none, some, List, [], ◌∷◌, ◌++◌, codes, ltb,
  if◌then◌else◌,
}
use os_study.Prelude.Int.{is_minus_one}
use os_study.CLib.Buffer.{Buffer}
use os_study.Http.Types.{ReqLine, uri_limit}
use os_study.Http.ReadLine.{Reading}
use os_study.Server.World.{Text, Stats, ReadResult, Opened, Os}
use os_study.Server.Reply.{crlf, html_header, status_line, printed}
use os_study.Server.Files.{is_dir, cut_query, path_of}
use os_study.Server.Worker.{is_get, is_statistics, statistics_text}
use os_study.Process.Bash.{Round, Script}
use os_study.Process.Call.{Client, is_bash, command_of}
use os_study.Process.Stream.{Lasting}

-- `stops`: SIGALRM came while the script was read, so `need_stop_script` is 1 behind it.
pub record Answer : Type 0 where
  pub code : ℕ
  pub bytes : Text
  pub stops : Bool

-- What is left to the next request, over the way the program counts.
abbrev pub after : (ℕ → Lasting → Lasting) → Answer → Lasting → Lasting
after count a s = let s' = count a.code s in record s' { flag = if a.stops then 1 else s'.flag }

-- A page with a message.
abbrev pub page : ℕ → Text → Text → Answer
page code reason message = record {
  code = code;
  bytes = status_line code reason ++ (html_header ++ (crlf ++ (message ++ crlf)));
  stops = false;
}

-- What the reads of a file give, up to an error that is no interruption.
abbrev pub contents : List ReadResult → Text
contents [] = []
contents (ReadResult.chunk c cs ∷ rest) = (c ∷ cs) ++ contents rest
contents (ReadResult.eintr ∷ rest) = contents rest
contents (ReadResult.failed ∷ rest) = []

-- The names of a directory, each on a line.
abbrev pub listing : List Text → Text
listing [] = []
listing (name ∷ names) = (name ++ codes "\n") ++ listing names

abbrev pub directory : Option (List Text) → Answer
directory none = page 500 (codes "server error") (codes "call opendir error")
directory (some names) = record {
  code = 200;
  bytes =
      status_line 200 (codes "Ok")
      ++ ((codes "content-type: text/json; charset=UTF-8" ++ crlf)
          ++ (crlf ++ (listing names ++ crlf)));
  stops = false;
}

abbrev pub opened_file : Opened → Answer
opened_file (Opened.denied mesg) = page 403 (codes "require permissions") mesg
opened_file (Opened.refused mesg) = page 500 (codes "server error") mesg
opened_file (Opened.opened reads) = record {
  code = 200;
  bytes = status_line 200 (codes "Ok") ++ (crlf ++ contents reads);
  stops = false;
}

-- `ls_version_one`: what `ls` writes.
abbrev pub listed : Option (List ReadResult) → Answer
listed none = page 500 (codes "Ok") (codes "pipe read error")
listed (some reads) = record {
  code = 200;
  bytes = status_line 200 (codes "Ok") ++ (crlf ++ contents reads);
  stops = false;
}

abbrev pub accessible_file : Os → Text → Option Text → Answer
accessible_file os path (some mesg) = page 404 (codes "not found") mesg
accessible_file os path none = opened_file (os.open_rdonly path)

-- An empty URI has a page with the text of a null pointer.
abbrev pub file : Os → Buffer → Answer
file os uri =
    let (i, uri') = cut_query uri_limit uri 0 in
    if ltb 0 i
    then accessible_file os (path_of uri') (os.faccessat (path_of uri'))
    else page 200 (codes "Ok") os.null_text

-- What a script is heard to write, and whether SIGALRM comes meanwhile: an interrupted read is made
-- again, and the first read behind SIGALRM, or with the flag set before, is not passed on.
abbrev pub read_more : ReadResult → Text × Bool → Text × Bool
read_more (ReadResult.chunk c cs) (text, stops) = ((c ∷ cs) ++ text, stops)
read_more ReadResult.eintr rest = rest
read_more ReadResult.failed rest = ([], false)

abbrev pub heard : Bool → Bool → List Round → Text × Bool
heard alarmed_at_end stopped [] = ([], alarmed_at_end)
heard alarmed_at_end stopped (r ∷ rs) =
    if r.alarmed
    then ([], true)
    else if stopped
    then ([], false)
    else read_more r.result (heard alarmed_at_end stopped rs)

-- The client stays to the end.
abbrev pub all_stay : List Round → Bool
all_stay [] = true
all_stay (r ∷ rs) = not r.epipe && all_stay rs

abbrev pub stays : Script → Bool
stays s = not s.status_epipe && (not s.blank_epipe && all_stay s.rounds)

-- `none`: the client leaves while the script runs. `flag` is `need_stop_script`.
abbrev pub script : ℕ → Option Script → Option Answer
script flag none = some (page 500 (codes "Ok") (codes "command running error"))
script flag (some s) =
    let (text, stops) = heard s.alarmed_at_end (not (flag == 0)) s.rounds in
    if stays s
    then some (record {
      code = 200;
      bytes = status_line 200 (codes "Ok") ++ (crlf ++ text);
      stops = stops;
    })
    else none

-- The tests that come first, on the request and on what the requests before have left; `other` is
-- the answer behind them.
abbrev pub tested_line : Os → Lasting → ReqLine → Option Answer → Option Answer
tested_line os before q other =
    if not (is_get q.method)
    then some (page 405 (codes "Method Not Allowed") os.null_text)
    else if is_minus_one q.version.major || is_minus_one q.version.major
    then some (page 505 (codes "HTTP Version Not Supported") os.null_text)
    else if is_statistics q.req_uri
    then some (page 200 (codes "Ok") (statistics_text before.stats.requests))
    else other

-- A directory or a file.
abbrev pub page_of : Os → Buffer → Answer
page_of os uri =
    if is_dir os (path_of uri) then directory (os.opendir (path_of uri)) else file os uri

abbrev pub answer_of_line : Client → Lasting → ReqLine → Option Answer
answer_of_line c before q = tested_line c.os before q (
    if is_bash q.req_uri
    then script before.flag (c.script (command_of q.req_uri))
    else some (page_of c.os q.req_uri))

abbrev pub reading_answer : Os → (ReqLine → Option Answer) → Reading → Option Answer
reading_answer os of_line (Reading.line t rest) = of_line t.req_line
reading_answer os of_line (Reading.error t rest) =
    some (page 400 (codes "Bad request") os.null_text)
reading_answer os of_line Reading.overrun = none

-- Of a process, and of a thread, which runs no script.
abbrev pub answer_of : Client → Lasting → Reading → Option Answer
answer_of c before r = reading_answer c.os (answer_of_line c before) r

abbrev pub thread_answer : Os → Lasting → Reading → Option Answer
thread_answer os before r =
    reading_answer os (λ q. tested_line os before q (some (page_of os q.req_uri))) r
