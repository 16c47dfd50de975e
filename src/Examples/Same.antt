-- ===== src/Examples/Same.antt =====
-- The answers of the threads and of server.c, and the three kinds of server side by side.
use os_study.Prelude.{ℕ, suc, ◌≡◌, refl, arith, false, some, [], ◌∷◌, ◌++◌, codes}
use os_study.CLib.Buffer.{zeroed, find_char, strncasecmp_eq, c_string}
use os_study.CLib.Decimal.{digits, print_int}
use os_study.Http.Types.{blank_req}
use os_study.Http.Method.{parse_method}
use os_study.Http.Version.{parse_version, set_major, set_minor}
use os_study.Http.ReadLine.{read_request_line, read_loop, dispatch}
use os_study.Http.ReadLine.Bounds.{read_request_line-ne-overrun}
use os_study.Server.World.{Text, World, ok, ReadResult}
use os_study.Server.Reply.{crlf}
use os_study.Server.Files.{is_dir, cut_query, path_of}
use os_study.Server.Worker.{Locals, fresh_locals, is_statistics, serve}
use os_study.Process.Call.{is_bash, do_call_pool, Attach}
use os_study.Process.Call
use os_study.Process.Stream.{lasting, received, part}
use os_study.Process.Counting.{spent}
use os_study.Process.Answer.{after, thread_answer}
use os_study.Programs.Threads
use os_study.Programs.Answers.Threads.{serve-answered}
use os_study.Programs.Answers.Same.{conn_of, asks_script, do_call-same}
use os_study.Programs.Single.{Opening, Visitor, accept_request}
use os_study.Programs.Single.Untouched.{VisitorFits}
use os_study.Programs.Single.Exact.{visitor_answer, accept_request-answered}
use os_study.Examples.Data.{visitor, quiet, one_file-OsFits, get_a-fits}
use os_study.Examples.Answers.{reader, file_answer}

visitor_answered :
    thread_answer visitor.os
      (lasting quiet)
      (read_request_line fresh_locals.recv_buffer fresh_locals.req_buf visitor.input)
    ≡ some file_answer
unfolding read_request_line read_loop dispatch parse_method parse_version find_char set_major
    set_minor is_statistics strncasecmp_eq is_dir cut_query path_of c_string print_int digits
visitor_answered = refl

serve-answered_example :
    (l' : Locals) × (w' : World) × (serve visitor fresh_locals quiet ≡ ok l' w')
    × (w'.sem ≡ 0)
    × (lasting w' ≡ after spent file_answer (lasting quiet))
    × ((x : ℕ) → received x w'.calls ≡ received x [] ++ part x 5 file_answer.bytes)
serve-answered_example =
    serve-answered visitor fresh_locals quiet 0 file_answer one_file-OsFits refl visitor_answered

no_script_asked : asks_script (read_request_line zeroed blank_req reader.input) ≡ false
unfolding read_request_line read_loop dispatch parse_method parse_version find_char set_major
    set_minor is_bash strncasecmp_eq
no_script_asked = refl

abbrev all_attached : Attach
all_attached = record { sem_failed = false; ftok_failed = false; shmat_null = false }

do_call-same_example :
    (wp : World) × (wc : World) × (wt : World) × (do_call_pool reader quiet ≡ ok tt wp)
    × (Call.do_call reader all_attached quiet ≡ ok tt wc)
    × (Threads.do_call (conn_of reader) quiet ≡ ok tt wt)
    × ((x : ℕ)
        → (received x wp.calls ≡ received x wt.calls) × (received x wc.calls ≡ received x wt.calls))
    × (wp.stats ≡ wt.stats)
    × (wc.stats ≡ wt.stats)
    × (wp.sem ≡ suc wt.sem)
    × (wc.sem ≡ suc wt.sem)
do_call-same_example =
    do_call-same reader all_attached quiet 0 one_file-OsFits refl refl
      (read_request_line-ne-overrun zeroed blank_req reader.input get_a-fits) no_script_asked

-- A file of server.c that reads "hi".
abbrev caller_of_file : Visitor
caller_of_file = record {
  conn = visitor;
  opening = λ _. Opening.opened (ReadResult.chunk b'h' (codes "i") ∷ []);
}

caller_of_file-VisitorFits : VisitorFits caller_of_file
caller_of_file-VisitorFits = record { null = omega arith; errors = λ _. tt }

abbrev hi_page : Text
hi_page = codes "HTTP/1.1 200 Ok" ++ (crlf ++ (crlf ++ (crlf ++ (codes "hi" ++ (crlf ++ crlf)))))

hi_answered :
    visitor_answer caller_of_file (read_request_line zeroed blank_req visitor.input) ≡ some hi_page
unfolding read_request_line read_loop dispatch parse_method parse_version find_char set_major
    set_minor cut_query path_of c_string print_int digits
hi_answered = refl

accept_request-answered_example :
    (w' : World) × (accept_request caller_of_file quiet ≡ ok tt w')
    × (lasting w' ≡ lasting quiet)
    × ((x : ℕ) → received x w'.calls ≡ received x [] ++ part x 5 hi_page)
accept_request-answered_example =
    accept_request-answered caller_of_file quiet hi_page caller_of_file-VisitorFits hi_answered
