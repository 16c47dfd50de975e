-- ===== src/Programs/BlockingQueue/System.antt =====
-- multi_server_thread_blocking_queue.c as a whole: the loop of `server` and its 16 workers, around the
-- queue and the semaphore. The calls on the queue are one step each, by their mutex, and a request is
-- served in one.
use os_study.Prelude.{
  ℕ, ◌+◌, ◌^◌, ◌<◌, ◌≡◌, ◌≢◌, none, some, List, [], ◌∷◌, ◌++◌, ◌==◌, if◌then◌else◌,
}
use os_study.Protocol.Family.{set_at}
use os_study.Queue.{Ptr, null, State, queue_init, queue_put, queue_get, Got}
use os_study.Server.World.{World, ok}
use os_study.Server.Worker.{Conn, Locals, fresh_locals, serve}
use os_study.Programs.Startup.{fresh_stats}

-- A worker at `queue_get`, or with a connection that it has taken, with its buffers.
pub data Worker : Type 0 where
  waits : Locals → Worker
  serves : ℕ → Locals → Worker

-- `accepted`, `taken` and `served` record what has happened, the oldest first.
pub record System : Type 0 where
  pub queue : State
  pub world : World
  pub workers : ℕ → Worker
  pub accepted : List ℕ
  pub taken : List ℕ
  pub served : List ℕ

-- Behind `main`, before the first `accept`.
abbrev pub started : State → System
started q = record {
  queue = queue_init q;
  world = record {
    calls = [];
    stats = fresh_stats;
    sem = 1;
    alarm_count = 0;
    need_stop_script = 0;
  };
  workers = λ _. Worker.waits fresh_locals;
  accepted = [];
  taken = [];
  served = [];
}

-- What a client sends and what its request meets is any connection `c` on the descriptor. `calloc`
-- returns an address that is not in use, and fewer than 2 ^ 32 connections wait at any time.
pub data Step (s : System) : System → Type 0 where
  accept :
      (mq : Ptr) (connfd : ℕ) (q : State)
      → mq ≢ null
      → s.queue.heap mq ≡ none
      → s.queue.queue.length + 1 < 2 ^ 32
      → queue_put mq connfd s.queue ≡ some q
      → Step s (record s { queue = q; accepted = s.accepted ++ connfd ∷ [] })
  take :
      (i connfd : ℕ) (l : Locals) (q : State)
      → i < 16
      → s.workers i ≡ Worker.waits l
      → queue_get s.queue ≡ Got.got connfd q
      → Step s (record s {
        queue = q;
        workers = set_at i (Worker.serves connfd l) s.workers;
        taken = s.taken ++ connfd ∷ [];
      })
  finish :
      (i : ℕ) (c : Conn) (l l' : Locals) (w : World)
      → i < 16
      → s.workers i ≡ Worker.serves c.fd l
      → serve c l s.world ≡ ok l' w
      → Step s (record s {
        world = w;
        workers = set_at i (Worker.waits l') s.workers;
        served = s.served ++ c.fd ∷ [];
      })

pub data Reach (q : State) : System → Type 0 where
  begin : Reach q (started q)
  next : {s s' : System} → Reach q s → Step s s' → Reach q s'

-- How often a descriptor stands in a list.
abbrev pub count : ℕ → List ℕ → ℕ
count x [] = 0
count x (y ∷ ys) = let rest = count x ys in if x == y then rest + 1 else rest

-- 1 for a worker that serves `x`.
abbrev pub on : ℕ → Worker → ℕ
on x (Worker.waits l) = 0
on x (Worker.serves connfd l) = if x == connfd then 1 else 0
