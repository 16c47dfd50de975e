-- ===== src/Examples/Pools.antt =====
-- The pool behind `main` and its first request, which the fourth process serves.
use mathlib.Core.Quot
use os_study.Prelude.{ℕ, ◌≡◌, refl, ap, arith, false, some, [], ◌∷◌}
use os_study.CLib.Buffer.{zeroed, find_char, strncasecmp_eq, c_string}
use os_study.CLib.Decimal.{digits, print_int}
use os_study.Http.Types.{blank_req}
use os_study.Http.Method.{parse_method}
use os_study.Http.Version.{parse_version, set_major, set_minor}
use os_study.Http.ReadLine.{read_request_line, read_loop, dispatch}
use os_study.Server.World.{World, ok, and_then, pure}
use os_study.Server.Files.{is_dir, cut_query, path_of}
use os_study.Server.Worker.{is_statistics}
use os_study.Process.Call.{is_bash}
use os_study.Process.Stream.{lasting, received}
use os_study.Process.Answer.{answer_of}
use os_study.Process.Answer.Exact.{do_call_pool-answered}
use os_study.Programs.Accept.{Accepted, End}
use os_study.Programs.Startup.{
  Platform, Ipc, Booting, fresh_stats, create_statistics, attach, sem_open, sem_unlink, same_name,
}
use os_study.Programs.Pool.{Turn, server_loop, create_processes, main}
use os_study.Programs.Pool.System.{
  Event, Pool, started, world_of, left_by, Step, Reach, delivered, counted_in, flag_of,
}
use os_study.Programs.Pool.Tally.{statistics_of, codes_of, reach-tallied}
use os_study.Programs.Pool.Whole.{reach-answered}
use os_study.Examples.Data.{one_file-OsFits}
use os_study.Examples.Answers.{reader, file_answer}

-- An earlier run died between its `sem_wait` and its `sem_post`.
abbrev stale : Ipc
stale = record { segment = record fresh_stats { requests = 7 }; named = λ n. some 0 }

abbrev booting : Booting
booting = record { ftok_failed = false; shmget_failed = false }

abbrev begun : Pool
begun = started (attach (main Platform.other booting (λ i. false) false stale).ipc) (λ i. false)

boots : (main Platform.other booting (λ i. false) false stale).ending ≡ End.waiting
unfolding main create_processes create_statistics
boots = refl

begun-Reach : Reach begun
begun-Reach = Reach.begin booting (λ i. false) false stale (λ i. false) boots

reader_first :
    answer_of reader (lasting (world_of begun 3)) (read_request_line zeroed blank_req reader.input)
    ≡ some file_answer
unfolding read_request_line read_loop dispatch parse_method parse_version find_char set_major
    set_minor is_statistics is_bash strncasecmp_eq is_dir cut_query path_of c_string print_int
    digits
reader_first = refl

free : (world_of begun 3).sem ≡ 1
unfolding main attach sem_open sem_unlink same_name create_processes create_statistics
free = refl

served :
    (w : World) × (server_loop (Turn.accepted (Accepted.conn reader) ∷ []) (world_of begun 3)
      ≡ ok End.waiting w)
unfolding server_loop
served =
    let (w, run, _, _, _) =
      do_call_pool-answered reader (world_of begun 3) 0 file_answer one_file-OsFits free
        reader_first in
    (w, ap (λ r. and_then r (λ _. pure End.waiting)) run)

behind : (s : Pool) × Reach s
behind = (
  left_by begun 3 served.0 (Event.served 3 6 file_answer ∷ []),
  Reach.next begun-Reach (
      Step.serve 3 reader file_answer served.0 (omega arith) refl one_file-OsFits reader_first
        served.1),
)

reach-answered_example :
    ((i x : ℕ) → received x (behind.0.calls i) ≡ delivered i x behind.0.events)
    × (behind.0.stats ≡ counted_in behind.0.events)
    × (behind.0.sem ≡ 1)
    × ((i : ℕ) → behind.0.flags i ≡ flag_of i behind.0.events)
reach-answered_example = reach-answered behind.1

reach-tallied_example : behind.0.stats ≡ statistics_of (Quot.mk (codes_of behind.0.events))
reach-tallied_example = reach-tallied behind.1
