-- ===== src/Examples/Children.antt =====
-- multi_server.c behind its first `accept`, with a child that is about to serve its connection.
use os_study.Prelude.{ℕ, ◌+◌, ◌≡◌, refl, false, some, [], ◌∷◌, ◌++◌}
use mathlib.Core.List.{Perm}
use os_study.CLib.Buffer.{zeroed, find_char, strncasecmp_eq, c_string}
use os_study.CLib.Decimal.{digits, print_int}
use os_study.Http.Types.{blank_req}
use os_study.Http.Method.{parse_method}
use os_study.Http.Version.{parse_version, set_major, set_minor}
use os_study.Http.ReadLine.{read_request_line, read_loop, dispatch}
use os_study.Server.World.{World, Call, ok}
use os_study.Server.Files.{is_dir, cut_query, path_of}
use os_study.Server.Worker.{is_statistics}
use os_study.Process.Call.{Attach, is_bash}
use os_study.Process.Stream.{lasting, received}
use os_study.Process.Answer.{answer_of}
use os_study.Programs.Accept.{Accepted, End}
use os_study.Programs.Startup.{Platform, Ipc, Booting, fresh_stats, create_statistics, attach}
use os_study.Programs.Fork.{Forked, server_loop, main}
use os_study.Programs.Fork.System.{
  Event, Servers, started, world_of, accepted_by, Step, Reach, delivered, counted_in, reports_of,
  forked_of, ended_of, signals_of, count_reports,
}
use os_study.Programs.Fork.Whole.{reach-exact, reach-child_serves}
use os_study.Examples.Data.{one_file-OsFits}
use os_study.Examples.Answers.{reader, file_answer}

-- An earlier run died between its `sem_wait` and its `sem_post`.
abbrev left_behind : Ipc
left_behind = record { segment = record fresh_stats { requests = 7 }; named = λ n. some 0 }

abbrev booting : Booting
booting = record { ftok_failed = false; shmget_failed = false }

abbrev begun : World
begun = attach (main Platform.other booting false left_behind).1

boots : (main Platform.other booting false left_behind).0 ≡ End.waiting
unfolding main create_statistics
boots = refl

abbrev arrival : Forked
arrival = record { connfd = 6; fork_failed = false }

abbrev adopted : World
adopted = record (world_of (started begun)) { calls = Call.close_conn 6 ∷ Call.fork_child 6 ∷ [] }

abbrev waiting : Servers
waiting = accepted_by (started begun) (Accepted.conn arrival) End.waiting adopted

accepts :
    server_loop (Accepted.conn arrival ∷ []) (world_of (started begun)) ≡ ok End.waiting adopted
unfolding server_loop attach
accepts = refl

waiting-Reach : Reach waiting
waiting-Reach =
    Reach.next (Reach.begin booting false left_behind boots)
      (Step.accept (Accepted.conn arrival) End.waiting adopted refl accepts)

abbrev attaches : Attach
attaches = record { sem_failed = false; ftok_failed = false; shmat_null = false }

reader_waits :
    answer_of reader (lasting (world_of waiting)) (read_request_line zeroed blank_req reader.input)
    ≡ some file_answer
unfolding read_request_line read_loop dispatch parse_method parse_version find_char set_major
    set_minor is_statistics is_bash strncasecmp_eq is_dir cut_query path_of c_string print_int
    digits
reader_waits = refl

reach-child_serves_example :
    (s : Servers) × Step waiting s
    × (s.events ≡ Event.answered 6 file_answer ∷ waiting.events)
    × (s.pending ≡ [] ++ [])
reach-child_serves_example =
    reach-child_serves [] [] reader attaches file_answer waiting-Reach refl one_file-OsFits refl
      reader_waits

behind : (s : Servers) × Reach s
behind =
    let (s, step, _, _) =
      reach-child_serves [] [] reader attaches file_answer waiting-Reach refl one_file-OsFits refl
        reader_waits in
    (s, Reach.next waiting-Reach step)

reach-exact_example :
    ((x : ℕ) → received x behind.0.calls ≡ delivered x behind.0.events)
    × (behind.0.stats ≡ counted_in behind.0.events)
    × (behind.0.sem ≡ 1)
    × (behind.0.printed ≡ reports_of behind.0.events)
    × (behind.0.posted + count_reports behind.0.events ≡ signals_of behind.0.events)
    × Perm (forked_of behind.0.events) (behind.0.pending ++ ended_of behind.0.events)
reach-exact_example = reach-exact behind.1
