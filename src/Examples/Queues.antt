-- ===== src/Examples/Queues.antt =====
-- The queue and the programs that fill it.
use os_study.Prelude.{
  ℕ, zero, suc, ◌+◌, ◌≤◌, ◌<◌, ◌≡◌, ◌↔◌, false, refl, arith, ◌⊎◌, none, some, List, [], ◌∷◌, ◌++◌,
  length,
}
use os_study.Queue.{
  null, State, empty_queue, append_to, message, write, queue_init, queue_put, queue_get, Got,
}
use os_study.Queue.Chain.{IsQueue}
use os_study.Queue.Fifo.{Event, puts, gets, History, gets_prefix, queue_get_total}
use os_study.Queue.Wakeup.{Monitor, Step, Reach, no_lost_wakeup}
use os_study.Programs.Accept.{Accepted, End, arrived, end_of}
use os_study.Programs.Startup.{Booting}
use os_study.Programs.BlockingQueue.{Queued, server_loop}
use os_study.Programs.BlockingQueue.Intake.{cells_of, server_loop-IsQueue}
use os_study.Programs.BlockingQueue.System.{System, started}
use os_study.Programs.BlockingQueue.System.{Step as Accepts, Reach as Reached}
use os_study.Programs.BlockingQueue.Whole.{reach-serves_one}
use os_study.Programs.Ports.{Round, Pass, Taken, visit, minus_one, Calls, Prepared, main}
use os_study.Examples.Data.{quiet}
use os_study.Programs.Ports.Opening.{Starts, main-Starts}
use os_study.Programs.Ports.Watching.{visit-failed}

abbrev nothing : State
nothing = record { heap = λ _. none; queue = empty_queue }

nothing-IsQueue : IsQueue nothing []
nothing-IsQueue = record { first = refl; last = refl; count = refl; linked = tt }

abbrev after_put : State
after_put = append_to 8 8 (write (queue_init nothing).heap 8 (some (message 5 null))) empty_queue

put_one : queue_put 8 5 (queue_init nothing) ≡ some after_put
unfolding queue_put queue_init
put_one = refl

no_messages : (queue_init nothing).heap 8 ≡ none
unfolding queue_init
no_messages = refl

few : (queue_init nothing).queue.length + 1 < 4294967296
unfolding queue_init
few = omega arith

history : History after_put (Event.put 5 ∷ [])
history = History.put 8 5 (History.start nothing) (omega arith) no_messages few put_one

gets_prefix_example :
    (waiting : List ℕ) × (puts (Event.put 5 ∷ []) ≡ gets (Event.put 5 ∷ []) ++ waiting)
    × (after_put.queue.length ≡ length waiting)
gets_prefix_example = gets_prefix history

queue_get_total_example :
    ((queue_get after_put ≡ Got.waits) × (after_put.queue.length ≡ 0))
    ⊎ ((sock : ℕ) × (s' : State) × (queue_get after_put ≡ Got.got sock s')
        × (0 < after_put.queue.length))
queue_get_total_example = queue_get_total history

-- The whole program, behind its first `accept`.
abbrev one_waits : System
one_waits = record (started nothing) { queue = after_put; accepted = 5 ∷ [] }

one_waits-Reach : Reached nothing one_waits
one_waits-Reach =
    Reached.next Reached.begin (Accepts.accept 8 5 after_put (omega arith) no_messages few put_one)

reach-serves_one_example : (0 ≤ 1) × (1 + 0 ≡ 1)
reach-serves_one_example = reach-serves_one one_waits-Reach

abbrev two_workers : Monitor
two_workers = record { length = 1; unsignalled = 1; checking = 0; asleep = 0; busy = 2 }

two_workers-Reach : Reach 2 two_workers
two_workers-Reach = Reach.next Reach.begin (Step.put refl)

no_lost_wakeup_example :
    (two_workers.busy ≡ 2) ⊎ (0 < two_workers.checking + two_workers.unsignalled)
no_lost_wakeup_example = no_lost_wakeup two_workers-Reach (omega arith)

abbrev arrivals : List (Accepted Queued)
arrivals = Accepted.conn (record { mq = 8; connfd = 5 }) ∷ Accepted.eintr ∷ Accepted.failed ∷ []

server_loop-IsQueue_example :
    (s' : State) × (server_loop arrivals nothing ≡ some (end_of arrivals, s'))
    × IsQueue s' (cells_of (arrived arrivals))
server_loop-IsQueue_example =
    server_loop-IsQueue arrivals nothing [] nothing-IsQueue (omega arith, refl, λ _ _. tt)

abbrev before : Pass
before = record { readfds = 3 ∷ []; state = nothing }

visit-failed_example :
    (p' : Pass) × (visit 3 (Taken.failed 8) before ≡ some p')
    × IsQueue p'.state ((8, minus_one) ∷ [])
visit-failed_example = visit-failed 3 8 before [] refl refl nothing-IsQueue (omega arith) refl

abbrev repeat : {A : Type 0} → ℕ → A → List A
repeat zero a = []
repeat (suc n) a = a ∷ repeat n a

-- `servSocks` with two ports: the other 30 places are -1.
abbrev serv_socks : List ℕ
serv_socks = 3 ∷ 4 ∷ repeat 30 minus_one

abbrev pass : Taken → List (ℕ × Taken)
pass taken = (3, taken) ∷ (4, Taken.eintr) ∷ repeat 30 (minus_one, Taken.eintr)

-- Two rounds: a connection on the first socket, and nothing on the second; then `select` fails.
abbrev rounds : List Round
rounds =
    Round.selected (3 ∷ []) (pass (Taken.conn 8 5))
    ∷ Round.selected [] (pass Taken.eintr)
    ∷ Round.select_failed
    ∷ []

-- Four arguments: two ports and the root.
abbrev argv : Calls
argv i = (
  record {
    socket_failed = false;
    setsockopt_failed = false;
    bind_failed = false;
    listen_failed = false;
  },
  i + 2,
)

abbrev creating : Booting
creating = record { ftok_failed = false; shmget_failed = false }

main-Starts_example :
    (p : Prepared) × (main 4 creating false argv quiet nothing ≡ some p)
    × (length p.serv_socks ≡ 32)
    × ((p.ending ≡ End.waiting) ↔ Starts 4 creating false argv)
main-Starts_example = main-Starts 4 creating false argv quiet nothing
