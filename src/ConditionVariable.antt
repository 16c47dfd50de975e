-- ===== src/ConditionVariable.antt =====
-- Reference/multi_threading/condition_variable.cpp: threads that wait until `go` sets `ready`. A step is
-- what a thread does between two calls that may wait.
pub mod Gate
pub mod Printed
pub mod Progress
use os_study.Prelude.{ℕ, ◌<◌, ◌≡◌, Bool, true, false, List, [], ◌∷◌}
use os_study.Protocol.Family.{set_at}

-- `print_id`: before it locks `mtx`, at the test of `ready` with `mtx` held, in `cv.wait`, notified and
-- about to lock again, and behind its end.
pub data Thread : Type 0 where
  outside inside asleep awake finished : Thread

-- `main`: before `go`, in `go` with `mtx` held, and behind it.
pub data Main : Type 0 where
  before_go in_go behind_go : Main

-- `locked` is the state of `mtx`; `printed` has the ids with the newest first.
pub record Race : Type 0 where
  pub threads : ℕ → Thread
  pub main : Main
  pub ready : Bool
  pub locked : Bool
  pub printed : List ℕ

abbrev pub started : Race
started = record {
  threads = λ _. Thread.outside;
  main = Main.before_go;
  ready = false;
  locked = false;
  printed = [];
}

-- `notify_all`
abbrev pub notified : Thread → Thread
notified Thread.asleep = Thread.awake
notified t = t

abbrev pub moved : ℕ → Thread → Bool → Race → Race
moved i t locked s = record s { threads = set_at i t s.threads; locked = locked }

-- With `n` threads. `cv.wait` unlocks and sleeps in one.
pub data Step (n : ℕ) (s : Race) : Race → Type 0 where
  lock :
      (i : ℕ)
      → i < n
      → s.threads i ≡ Thread.outside
      → s.locked ≡ false
      → Step n s (moved i Thread.inside true s)
  wait :
      (i : ℕ)
      → i < n
      → s.threads i ≡ Thread.inside
      → s.ready ≡ false
      → Step n s (moved i Thread.asleep false s)
  relock :
      (i : ℕ)
      → i < n
      → s.threads i ≡ Thread.awake
      → s.locked ≡ false
      → Step n s (moved i Thread.inside true s)
  print :
      (i : ℕ)
      → i < n
      → s.threads i ≡ Thread.inside
      → s.ready ≡ true
      → Step n s (record (moved i Thread.finished false s) { printed = i ∷ s.printed })
  enter_go :
      s.main ≡ Main.before_go
      → s.locked ≡ false
      → Step n s (record s { main = Main.in_go; locked = true })
  leave_go :
      s.main ≡ Main.in_go
      → Step n s (record s {
        main = Main.behind_go;
        ready = true;
        locked = false;
        threads = λ i. notified (s.threads i);
      })

-- `cv.wait` may also return with no notification.
pub data Reach (n : ℕ) : Race → Type 0 where
  begin : Reach n started
  next : {s s' : Race} → Reach n s → Step n s s' → Reach n s'
  spurious :
      {s : Race} (i : ℕ)
      → Reach n s
      → i < n
      → s.threads i ≡ Thread.asleep
      → Reach n (record s { threads = set_at i Thread.awake s.threads })
