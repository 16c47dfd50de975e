-- ===== src/Programs/Accept/Loops.antt =====
-- What the loops over `accept` hand on: multi_server_thread.c, server.c and multi_server.c.
use os_study.Prelude.{ℕ, ◌≡◌, refl, List, [], ◌∷◌, codes, if◌then◌else◌, Bool-cases, inl, inr}
use os_study.Server.World.{World, ok, Call, call}
use os_study.Programs.Accept.{Accepted, End, arrived, end_of, accept_error}
use os_study.Programs.Threads
use os_study.Programs.Single
use os_study.Programs.Fork.{Forked}
use os_study.Programs.Fork

-- A thread for each connection, the calls before these in `cs`.
abbrev pub started : List ℕ → List Call → List Call
started [] cs = cs
started (connfd ∷ fds) cs = started fds (Call.start_thread connfd ∷ cs)

-- The main thread of multi_server_thread.c starts one thread for each connection, in the order of
-- their arrival, whatever interrupts it, and does nothing else; it ends where `accept` fails with
-- anything but EINTR.
pub server_loop-started :
    (xs : List (Accepted ℕ)) (w : World)
    → Threads.server_loop xs w ≡ ok (end_of xs) (record w { calls = started (arrived xs) w.calls })
unfolding Threads.server_loop call
server_loop-started [] w = refl
server_loop-started (Accepted.conn c ∷ xs) w =
    server_loop-started xs (record w { calls = Call.start_thread c ∷ w.calls })
server_loop-started (Accepted.eintr ∷ xs) w = server_loop-started xs w
server_loop-started (Accepted.failed ∷ xs) w = refl

-- server.c does with its connections what multi_server_thread.c does.
pub server_loop-eq :
    (xs : List (Accepted ℕ)) (w : World) → Single.server_loop xs w ≡ Threads.server_loop xs w
unfolding Threads.server_loop Single.server_loop call
server_loop-eq [] w = refl
server_loop-eq (Accepted.conn c ∷ xs) w =
    server_loop-eq xs (record w { calls = Call.start_thread c ∷ w.calls })
server_loop-eq (Accepted.eintr ∷ xs) w = server_loop-eq xs w
server_loop-eq (Accepted.failed ∷ xs) w = refl

-- A child for each connection, which the parent closes at once.
abbrev pub forked : List ℕ → List Call → List Call
forked [] cs = cs
forked (connfd ∷ fds) cs = forked fds (Call.close_conn connfd ∷ Call.fork_child connfd ∷ cs)

-- The connections that get a child: those before `accept` or `fork` fails.
abbrev pub adopted : List (Accepted Forked) → List ℕ
adopted [] = []
adopted (Accepted.conn f ∷ xs) = if f.fork_failed then [] else f.connfd ∷ adopted xs
adopted (Accepted.eintr ∷ xs) = adopted xs
adopted (Accepted.failed ∷ xs) = []

-- The parent of multi_server.c forks one child for each connection, in the order of their arrival,
-- and closes its own descriptor of each before the next `accept`, whatever `accept` and `fork` do.
pub server_loop-forked :
    (xs : List (Accepted Forked)) (w : World)
    → (e : End) × (Fork.server_loop xs w ≡ ok e (record w { calls = forked (adopted xs) w.calls }))
unfolding Fork.server_loop call
server_loop-forked [] w = (End.waiting, refl)
server_loop-forked (Accepted.conn f ∷ xs) w = elim (Bool-cases f.fork_failed) [
  | inl e ↦ (End.err_sys (codes "Fork error"), rw e refl)
  | inr e ↦
      let cs = Call.close_conn f.connfd ∷ Call.fork_child f.connfd ∷ w.calls in
      let (end, done) = server_loop-forked xs (record w { calls = cs }) in (end, rw e done)
]
server_loop-forked (Accepted.eintr ∷ xs) w = server_loop-forked xs w
server_loop-forked (Accepted.failed ∷ xs) w = (End.err_sys accept_error, refl)
