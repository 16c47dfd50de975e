-- ===== src/Programs/BlockingQueue/Whole.antt =====
-- What becomes of the connections that multi_server_thread_blocking_queue.c accepts.
use os_study.Prelude.{
  ℕ, ◌+◌, ◌%◌, ◌^◌, ◌≤◌, ◌≡◌, refl, ap, subst, ◌∙◌, arith, List, [], ◌∷◌, ◌++◌, length,
  length-append, append-nil,
}
use os_study.Protocol.Family.{sum_below, sum_below-set_at, sum_below-const}
use os_study.Queue.{State}
use os_study.Queue.Fifo.{Event, puts, gets, puts-append, gets-append, History}
use os_study.Server.World.{World, ok}
use os_study.Server.Worker.{Conn, Locals, fresh_locals, serve}
use os_study.Server.Effect.{Spent}
use os_study.Server.Serving.{Spends-serve}
use os_study.Programs.BlockingQueue.System.{Worker, System, Step, Reach, count, on}

count-append : (x : ℕ) (xs ys : List ℕ) → count x (xs ++ ys) ≡ count x xs + count x ys
count-append x [] ys = omega arith
count-append x (y ∷ xs) ys = let rest = count-append x xs ys in ground (arith, rest)

-- The history of the queue, with what was put and got.
record Recorded (s : System) : Type 0 where
  events : List Event
  history : History s.queue events
  all_put : puts events ≡ s.accepted
  all_got : gets events ≡ s.taken

recorded : {q : State} {s : System} → Reach q s → Recorded s
recorded {q} Reach.begin = record {
  events = [];
  history = History.start q;
  all_put = refl;
  all_got = refl;
}
recorded (Reach.next reach (Step.accept mq connfd q ne free room put)) =
    let r = recorded reach in
    record {
      events = r.events ++ Event.put connfd ∷ [];
      history = History.put mq connfd r.history ne free room put;
      all_put = puts-append r.events (Event.put connfd ∷ []) ∙ ap (λ l. l ++ connfd ∷ []) r.all_put;
      all_got =
          gets-append r.events (Event.put connfd ∷ []) ∙ (append-nil (gets r.events) ∙ r.all_got);
    }
recorded (Reach.next reach (Step.take i connfd l q below idle got)) =
    let r = recorded reach in
    record {
      events = r.events ++ Event.got connfd ∷ [];
      history = History.get connfd r.history got;
      all_put =
          puts-append r.events (Event.got connfd ∷ []) ∙ (append-nil (puts r.events) ∙ r.all_put);
      all_got = gets-append r.events (Event.got connfd ∷ []) ∙ ap (λ l. l ++ connfd ∷ []) r.all_got;
    }
recorded (Reach.next reach (Step.finish i c l l' w below busy done)) =
    let r = recorded reach in
    record { events = r.events; history = r.history; all_put = r.all_put; all_got = r.all_got }

-- How many workers serve `x`.
abbrev pub serving : ℕ → System → ℕ
serving x s = sum_below (on x) 16 s.workers

weight_at : (x : ℕ) (u v : Worker) → u ≡ v → on x u ≡ on x v
weight_at x u v e = ap (on x) e

taken_once :
    {q : State} {s : System} (x : ℕ) → Reach q s → count x s.taken ≡ count x s.served + serving x s
taken_once x Reach.begin = omega (arith, sum_below-const (on x) 16 (Worker.waits fresh_locals) refl)
taken_once x (Reach.next reach (Step.accept mq connfd q ne free room put)) = taken_once x reach
taken_once x (Reach.next {s} reach (Step.take i connfd l q below idle got)) =
    let before = taken_once x reach in
    let moved = sum_below-set_at (on x) 16 i (Worker.serves connfd l) s.workers below in
    let was = weight_at x (s.workers i) (Worker.waits l) idle in
    let more = count-append x s.taken (connfd ∷ []) in ground (arith, before, moved, was, more)
taken_once x (Reach.next {s} reach (Step.finish i c l l' w below busy done)) =
    let before = taken_once x reach in
    let moved = sum_below-set_at (on x) 16 i (Worker.waits l') s.workers below in
    let was = weight_at x (s.workers i) (Worker.serves c.fd l) busy in
    let more = count-append x s.served (c.fd ∷ []) in ground (arith, before, moved, was, more)

serve_spends :
    (c : Conn) (l l' : Locals) (w w' : World)
    → serve c l w ≡ ok l' w'
    → (w.sem ≡ w'.sem + 1) × (w'.stats.requests % 2 ^ 32 ≡ (w.stats.requests + 1) % 2 ^ 32)
serve_spends c l l' w w' e = subst (Spent 1 1 w) e ((Spends-serve c l).at w)

spent : {q : State} {s : System} → Reach q s → s.world.sem + length s.served ≡ 1
spent Reach.begin = refl
spent (Reach.next reach (Step.accept mq connfd q ne free room put)) = spent reach
spent (Reach.next reach (Step.take i connfd l q below idle got)) = spent reach
spent (Reach.next {s} reach (Step.finish i c l l' w below busy done)) =
    let now = serve_spends c l l' s.world w done in
    let more = length-append {0} s.served (c.fd ∷ []) in omega (arith, spent reach, now.0, more)

-- In every reachable state of the program, whatever the clients send and whichever of the 16 workers
-- take their connections, at most one connection has been served to its end; once one has been, the
-- semaphore is 0. `calloc` returns unused addresses, and fewer than 2 ^ 32 connections wait.
pub reach-serves_one :
    {q : State} {s : System}
    → Reach q s
    → (length s.served ≤ 1) × (s.world.sem + length s.served ≡ 1)
reach-serves_one reach = (omega (arith, spent reach), spent reach)
