-- ===== src/Programs/Pool/System.antt =====
-- multi_server_pre_forked_pool_of_processes.c as a whole, behind `main`: 32 processes that share the
-- statistics and the semaphore, and each have descriptors, an `alarm_count` and a `need_stop_script` of
-- their own. A request is served in one step. The process that prints at SIGUSR1 takes the semaphore
-- and gives it back, and is left out.
use os_study.Prelude.{
  ℕ, ◌<◌, ◌≡◌, Bool, true, false, Option, none, some, List, [], ◌∷◌, ◌++◌, ◌==◌, if◌then◌else◌,
}
use os_study.Protocol.Family.{set_at}
use os_study.CLib.Buffer.{zeroed}
use os_study.Http.Types.{blank_req}
use os_study.Http.ReadLine.{read_request_line}
use os_study.Server.World.{Text, Stats, World, ok, Call}
use os_study.Server.Stats.{count_code}
use os_study.Server.Fits.{OsFits}
use os_study.Process.Call.{Client}
use os_study.Process.Stream.{lasting, part}
use os_study.Process.Answer.{Answer, answer_of}
use os_study.Programs.Accept.{Accepted, End}
use os_study.Programs.Startup.{Platform, Booting, Ipc, fresh_stats, attach}
use os_study.Programs.Pool.{Handler, Turn, server_loop, main}

-- A request that was served, on a descriptor of the process, or a SIGALRM between two requests.
pub data Event : Type 0 where
  served : ℕ → ℕ → Answer → Event
  alarmed : ℕ → Handler → Event

-- `down` are the processes that have ended. `events` has the newest first.
pub record Pool : Type 0 where
  pub calls : ℕ → List Call
  pub stats : Stats
  pub sem : ℕ
  pub alarms : ℕ → ℕ
  pub flags : ℕ → ℕ
  pub down : ℕ → Bool
  pub events : List Event

-- Behind `main`, with the semaphore as the first to open it finds it.
abbrev pub started : World → (ℕ → Bool) → Pool
started w down = record {
  calls = λ _. [];
  stats = w.stats;
  sem = w.sem;
  alarms = λ _. 0;
  flags = λ _. 0;
  down = down;
  events = [];
}

-- What process `i` finds.
abbrev pub world_of : Pool → ℕ → World
world_of s i = record {
  calls = s.calls i;
  stats = s.stats;
  sem = s.sem;
  alarm_count = s.alarms i;
  need_stop_script = s.flags i;
}

-- What it leaves.
abbrev pub left_by : Pool → ℕ → World → List Event → Pool
left_by s i w events = record s {
  calls = set_at i w.calls s.calls;
  stats = w.stats;
  sem = w.sem;
  alarms = set_at i w.alarm_count s.alarms;
  flags = set_at i w.need_stop_script s.flags;
  events = events;
}

-- The handler of a process that has called `alarm`: `handle_bash` sets the one that stops its script
-- with 10 seconds, and the functions that stop a script the other with 5.
abbrev pub armed : List Call → Option Handler
armed [] = none
armed (Call.set_alarm n ∷ calls) = some (if n == 10 then Handler.stop_script else Handler.count)
armed (_ ∷ calls) = armed calls

-- A process serves a connection, or is interrupted in `accept`, or ends by an error of `accept`, or
-- gets the SIGALRM of an `alarm` that it has called, at any time behind the request.
-- The request line does not overrun recv_buffer, and the client stays until its answer is sent:
-- there is an answer `a`. The texts of the system fit.
pub data Step (s : Pool) : Pool → Type 0 where
  serve :
      (i : ℕ) (c : Client) (a : Answer) (w : World)
      → i < 32
      → s.down i ≡ false
      → OsFits c.os
      → answer_of c (lasting (world_of s i)) (read_request_line zeroed blank_req c.input) ≡ some a
      → server_loop (Turn.accepted (Accepted.conn c) ∷ []) (world_of s i) ≡ ok End.waiting w
      → Step s (left_by s i w (Event.served i c.fd a ∷ s.events))
  interrupted :
      (i : ℕ) (w : World)
      → i < 32
      → s.down i ≡ false
      → server_loop (Turn.accepted Accepted.eintr ∷ []) (world_of s i) ≡ ok End.waiting w
      → Step s (left_by s i w s.events)
  fail :
      (i : ℕ) (e : End) (w : World)
      → i < 32
      → s.down i ≡ false
      → server_loop (Turn.accepted Accepted.failed ∷ []) (world_of s i) ≡ ok e w
      → Step s (record (left_by s i w s.events) { down = set_at i true s.down })
  sigalrm :
      (i : ℕ) (h : Handler) (w : World)
      → i < 32
      → s.down i ≡ false
      → armed (s.calls i) ≡ some h
      → server_loop (Turn.sigalrm h ∷ []) (world_of s i) ≡ ok End.waiting w
      → Step s (left_by s i w (Event.alarmed i h ∷ s.events))

-- From `main`, on a platform other than Linux, whatever an earlier run has left. `down` are the
-- processes in which a call before the loop fails.
pub data Reach : Pool → Type 0 where
  begin :
      (b : Booting) (fails : ℕ → Bool) (handler_failed : Bool) (m : Ipc) (down : ℕ → Bool)
      → (main Platform.other b fails handler_failed m).ending ≡ End.waiting
      → Reach (started (attach (main Platform.other b fails handler_failed m).ipc) down)
  next : {s s' : Pool} → Reach s → Step s s' → Reach s'

-- What the answers of process `i` bring to its descriptor `x`, what all answers count, and what the
-- answers and signals leave in the `need_stop_script` of process `i`.
abbrev pub delivered : ℕ → ℕ → List Event → Text
delivered i x [] = []
delivered i x (Event.served j fd a ∷ before) =
    let text = delivered i x before in if j == i then text ++ part x fd a.bytes else text
delivered i x (Event.alarmed j h ∷ before) = delivered i x before

abbrev pub counted_in : List Event → Stats
counted_in [] = fresh_stats
counted_in (Event.served j fd a ∷ before) = count_code a.code (counted_in before)
counted_in (Event.alarmed j h ∷ before) = counted_in before

abbrev pub flag_of : ℕ → List Event → ℕ
flag_of i [] = 0
flag_of i (Event.served j fd a ∷ before) =
    let flag = flag_of i before in if j == i then (if a.stops then 1 else flag) else flag
flag_of i (Event.alarmed j Handler.stop_script ∷ before) =
    let flag = flag_of i before in if j == i then 1 else flag
flag_of i (Event.alarmed j Handler.count ∷ before) = flag_of i before
