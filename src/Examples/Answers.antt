-- ===== src/Examples/Answers.antt =====
-- The answers of the pool: a script that SIGALRM stops behind its first output.
use os_study.Prelude.{ℕ, ◌≡◌, refl, true, false, some, [], ◌∷◌, List, ◌++◌, codes}
use os_study.CLib.Buffer.{zeroed, find_char, strncasecmp_eq, c_string}
use os_study.CLib.Decimal.{digits, print_int}
use os_study.Http.Types.{blank_req}
use os_study.Http.Method.{parse_method}
use os_study.Http.Version.{parse_version, set_major, set_minor}
use os_study.Http.ReadLine.{read_request_line, read_loop, dispatch}
use os_study.Server.World.{World, ok, ReadResult}
use os_study.Server.Reply.{crlf}
use os_study.Server.Worker.{is_statistics}
use os_study.Server.Files.{is_dir, cut_query, path_of}
use os_study.Process.Bash.{Script}
use os_study.Process.Call.{Client, is_bash, command_of, do_call_pool}
use os_study.Process.Stream.{lasting, received, part}
use os_study.Process.Counting.{counted}
use os_study.Process.Answer.{Answer, after, answer_of}
use os_study.Process.Answer.Exact.{do_call_pool-answered}
use os_study.Programs.Accept.{Accepted}
use os_study.Programs.Pool.{Handler, Turn, server_loop}
use os_study.Programs.Account.{
  answer_to, signalled, end_of, left_by, delivered, server_loop-answered,
}
use os_study.Examples.Data.{get_a, caller, leaving, quiet, one_file-OsFits}

abbrev slow : Script
slow = record leaving {
  rounds =
      record { result = ReadResult.chunk b'h' (codes "i"); alarmed = false; epipe = false }
      ∷ record { result = ReadResult.chunk b'!' []; alarmed = true; epipe = false }
      ∷ [];
}

abbrev patient : Client
patient = record caller { script = λ command. some slow }

abbrev hi : Answer
hi = record {
  code = 200;
  bytes = codes "HTTP/1.1 200 Ok" ++ (crlf ++ (crlf ++ codes "hi"));
  stops = true;
}

patient_answered :
    answer_of patient (lasting quiet) (read_request_line zeroed blank_req patient.input) ≡ some hi
unfolding read_request_line read_loop dispatch parse_method parse_version find_char set_major
    set_minor is_statistics is_bash strncasecmp_eq is_dir cut_query path_of c_string print_int
    digits command_of
patient_answered = refl

do_call_pool-answered_example :
    (w' : World) × (do_call_pool patient quiet ≡ ok tt w')
    × (w'.sem ≡ 1)
    × (lasting w' ≡ after counted hi (lasting quiet))
    × ((x : ℕ) → received x w'.calls ≡ received x [] ++ part x 6 hi.bytes)
do_call_pool-answered_example =
    do_call_pool-answered patient quiet 0 hi one_file-OsFits refl patient_answered

-- The file that reads "hi".
abbrev pub reader : Client
reader = record caller { input = get_a }

-- The script is stopped, and the next one is not heard at all; the file is.
abbrev later : Answer
later = record hi { bytes = codes "HTTP/1.1 200 Ok" ++ (crlf ++ crlf); stops = false }

abbrev pub file_answer : Answer
file_answer = record hi { stops = false }

later_answered : answer_to patient (after counted hi (lasting quiet)) ≡ some later
unfolding read_request_line read_loop dispatch parse_method parse_version find_char set_major
    set_minor is_statistics is_bash strncasecmp_eq is_dir cut_query path_of c_string print_int
    digits command_of
later_answered = refl

reader_last :
    answer_to reader
      (signalled Handler.stop_script (after counted later (after counted hi (lasting quiet))))
    ≡ some file_answer
unfolding read_request_line read_loop dispatch parse_method parse_version find_char set_major
    set_minor is_statistics is_bash strncasecmp_eq is_dir cut_query path_of c_string print_int
    digits
reader_last = refl

-- The SIGALRM of the first script's 10 seconds comes late.
abbrev visits : List Turn
visits =
    Turn.accepted (Accepted.conn patient)
    ∷ Turn.accepted (Accepted.conn patient)
    ∷ Turn.accepted Accepted.eintr
    ∷ Turn.sigalrm Handler.stop_script
    ∷ Turn.accepted (Accepted.conn reader)
    ∷ []

abbrev answers : List Answer
answers = hi ∷ later ∷ file_answer ∷ []

server_loop-answered_example :
    (w' : World) × (server_loop visits quiet ≡ ok (end_of visits) w')
    × (w'.sem ≡ 1)
    × (lasting w' ≡ left_by visits answers (lasting quiet))
    × ((x : ℕ) → received x w'.calls ≡ received x [] ++ delivered x visits answers)
server_loop-answered_example = server_loop-answered visits answers quiet 0 refl (
  one_file-OsFits,
  patient_answered,
  (one_file-OsFits, later_answered, (one_file-OsFits, reader_last, tt)),
)
