-- ===== src/Examples/Data.antt =====
-- Connections, a file system and states for the examples.
use os_study.Prelude.{◌≤◌, refl, arith, true, false, none, some, [], ◌∷◌, ◌++◌, codes, length}
use os_study.Http.Types.{buffsize}
use os_study.Server.World.{Text, World, ReadResult, Opened, Os}
use os_study.Server.Reply.{crlf}
use os_study.Server.Worker.{Conn}
use os_study.Server.Fits.{OsFits}
use os_study.Server.Balance.{InOrder}
use os_study.Process.Bash.{Script}
use os_study.Process.Call.{Client}
use os_study.Programs.Startup.{fresh_stats}

abbrev pub get_a : Text
get_a = codes "GET /a HTTP/1.1" ++ crlf

abbrev get_bash : Text
get_bash = codes "GET /bash/ls HTTP/1.1" ++ crlf

-- Each path is a file that reads "hi".
abbrev one_file : Os
one_file = record {
  stat = λ _. some false;
  opendir = λ _. none;
  faccessat = λ _. none;
  open_rdonly = λ _. Opened.opened (ReadResult.chunk b'h' (codes "i") ∷ []);
  null_text = codes "(null)";
}

pub one_file-OsFits : OsFits one_file
one_file-OsFits = record {
  null = omega arith;
  names = λ _. tt;
  missing = λ _. tt;
  errors = λ _. tt;
}

abbrev pub visitor : Conn
visitor = record { fd = 5; input = get_a; os = one_file }

pub get_a-fits : length get_a ≤ buffsize
get_a-fits = omega arith

pub get_bash-fits : length get_bash ≤ buffsize
get_bash-fits = omega arith

-- A script that writes once; the client leaves then, and the script needs a second wait.
abbrev pub leaving : Script
leaving = record {
  pid = 77;
  status_epipe = false;
  blank_epipe = false;
  rounds = record { result = ReadResult.chunk b'x' []; alarmed = false; epipe = true } ∷ [];
  alarmed_at_end = false;
  waits =
      record { echild = false; alarmed = true } ∷ record { echild = true; alarmed = false } ∷ [];
}

abbrev pub caller : Client
caller = record { fd = 6; input = get_bash; os = one_file; script = λ _. some leaving }

abbrev pub quiet : World
quiet = record { calls = []; stats = fresh_stats; sem = 1; alarm_count = 0; need_stop_script = 0 }

pub quiet-InOrder : InOrder 1 quiet
quiet-InOrder = record { permits = refl; balanced = refl }
