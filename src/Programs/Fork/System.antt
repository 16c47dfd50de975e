-- ===== src/Programs/Fork/System.antt =====
-- multi_server.c as a whole, behind `main`: the parent, which forks a child for each connection, the
-- children, which attach to the statistics and serve their connection, and the process that prints on
-- SIGUSR1. A request is served in one step.
use os_study.Prelude.{
  ℕ, suc, ◌≡◌, Bool, true, false, ◌||◌, some, List, [], ◌∷◌, ◌++◌, if◌then◌else◌,
}
use os_study.CLib.Buffer.{zeroed}
use os_study.Http.Types.{blank_req}
use os_study.Http.ReadLine.{read_request_line}
use os_study.Server.World.{Text, Stats, World, ok, Call}
use os_study.Server.Stats.{count_code}
use os_study.Server.Fits.{OsFits}
use os_study.Process.Call.{Client, Attach}
use os_study.Process.Stream.{lasting, part}
use os_study.Process.Answer.{Answer, answer_of}
use os_study.Programs.Accept.{Accepted, End}
use os_study.Programs.Startup.{Platform, Booting, Ipc, fresh_stats, attach}
use os_study.Programs.Fork.{Forked, server_loop, child, main, handler_siguser1}

-- What has happened: a child was forked for a connection, a child has answered, a child could not
-- attach, SIGUSR1 came, and the other process has printed.
pub data Event : Type 0 where
  forked : ℕ → Event
  answered : ℕ → Answer → Event
  refused : ℕ → Event
  signalled : Event
  reported : Event

-- `posted` is the value of `user1_sem`, `printed` and `events` have the newest first, and `pending`
-- are the connections of the children that have not run.
pub record Servers : Type 0 where
  pub calls : List Call
  pub stats : Stats
  pub sem : ℕ
  pub posted : ℕ
  pub printed : List ℕ
  pub pending : List ℕ
  pub ending : End
  pub events : List Event

-- Behind `main`, with the semaphore as the first to open it finds it.
abbrev pub started : World → Servers
started w = record {
  calls = w.calls;
  stats = w.stats;
  sem = w.sem;
  posted = 0;
  printed = [];
  pending = [];
  ending = End.waiting;
  events = [];
}

-- What a process finds: `alarm_count` and `need_stop_script` are its own.
abbrev pub world_of : Servers → World
world_of s = record {
  calls = s.calls;
  stats = s.stats;
  sem = s.sem;
  alarm_count = 0;
  need_stop_script = 0;
}

-- What it leaves.
abbrev pub left_by : Servers → World → Event → Servers
left_by s w e = record s { calls = w.calls; stats = w.stats; sem = w.sem; events = e ∷ s.events }

-- The connections that wait, and the events, behind an `accept` of the parent.
abbrev pub waiting_behind : Accepted Forked → List ℕ → List ℕ
waiting_behind (Accepted.conn f) pending = if f.fork_failed then pending else f.connfd ∷ pending
waiting_behind _ pending = pending

abbrev pub events_behind : Accepted Forked → List Event → List Event
events_behind (Accepted.conn f) events =
    if f.fork_failed then events else Event.forked f.connfd ∷ events
events_behind _ events = events

abbrev pub accepted_by : Servers → Accepted Forked → End → World → Servers
accepted_by s x e w = record s {
  calls = w.calls;
  stats = w.stats;
  sem = w.sem;
  pending = waiting_behind x s.pending;
  ending = e;
  events = events_behind x s.events;
}

abbrev pub fails : Attach → Bool
fails t = t.sem_failed || (t.ftok_failed || t.shmat_null)

-- A child that attaches has an answer `a`: the request line does not overrun recv_buffer, and the
-- client stays while its script runs. The texts of the system fit.
pub data Step (s : Servers) : Servers → Type 0 where
  accept :
      (x : Accepted Forked) (e : End) (w : World)
      → s.ending ≡ End.waiting
      → server_loop (x ∷ []) (world_of s) ≡ ok e w
      → Step s (accepted_by s x e w)
  serve :
      (front back : List ℕ) (c : Client) (t : Attach) (a : Answer) (w : World)
      → s.pending ≡ front ++ c.fd ∷ back
      → OsFits c.os
      → fails t ≡ false
      → answer_of c (lasting (world_of s)) (read_request_line zeroed blank_req c.input) ≡ some a
      → child c t (world_of s) ≡ ok tt w
      → Step s (record (left_by s w (Event.answered c.fd a)) { pending = front ++ back })
  refuse :
      (front back : List ℕ) (c : Client) (t : Attach) (w : World)
      → s.pending ≡ front ++ c.fd ∷ back
      → fails t ≡ true
      → child c t (world_of s) ≡ ok tt w
      → Step s (record (left_by s w (Event.refused c.fd)) { pending = front ++ back })
  signal : Step s (record s { posted = suc s.posted; events = Event.signalled ∷ s.events })
  report :
      (n : ℕ) (printed : List ℕ) (w : World)
      → s.posted ≡ suc n
      → handler_siguser1 1 s.printed (world_of s) ≡ ok printed w
      → Step s (record (left_by s w Event.reported) { posted = n; printed = printed })

-- From `main`, on a platform other than Linux, whatever an earlier run has left.
pub data Reach : Servers → Type 0 where
  begin :
      (b : Booting) (fork_failed : Bool) (m : Ipc)
      → (main Platform.other b fork_failed m).0 ≡ End.waiting
      → Reach (started (attach (main Platform.other b fork_failed m).1))
  next : {s s' : Servers} → Reach s → Step s s' → Reach s'

-- What the events bring to the descriptor `x`, what they count, and what they print.
abbrev pub delivered : ℕ → List Event → Text
delivered x [] = []
delivered x (Event.answered fd a ∷ before) = delivered x before ++ part x fd a.bytes
delivered x (_ ∷ before) = delivered x before

abbrev pub counted_in : List Event → Stats
counted_in [] = fresh_stats
counted_in (Event.answered fd a ∷ before) = count_code a.code (counted_in before)
counted_in (_ ∷ before) = counted_in before

abbrev pub reports_of : List Event → List ℕ
reports_of [] = []
reports_of (Event.reported ∷ before) = (counted_in before).requests ∷ reports_of before
reports_of (_ ∷ before) = reports_of before

-- The connections that children were forked for, and those that children have brought to an end.
abbrev pub forked_of : List Event → List ℕ
forked_of [] = []
forked_of (Event.forked fd ∷ before) = fd ∷ forked_of before
forked_of (_ ∷ before) = forked_of before

abbrev pub ended_of : List Event → List ℕ
ended_of [] = []
ended_of (Event.answered fd a ∷ before) = fd ∷ ended_of before
ended_of (Event.refused fd ∷ before) = fd ∷ ended_of before
ended_of (_ ∷ before) = ended_of before

-- How often SIGUSR1 came.
abbrev pub signals_of : List Event → ℕ
signals_of [] = 0
signals_of (Event.signalled ∷ before) = suc (signals_of before)
signals_of (_ ∷ before) = signals_of before

abbrev pub count_reports : List Event → ℕ
count_reports [] = 0
count_reports (Event.reported ∷ before) = suc (count_reports before)
count_reports (_ ∷ before) = count_reports before
