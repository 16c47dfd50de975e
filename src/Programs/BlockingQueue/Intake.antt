-- ===== src/Programs/BlockingQueue/Intake.antt =====
-- What `server` of multi_server_thread_blocking_queue.c leaves in the queue.
use os_study.Prelude.{
  ◌≡◌, ◌≢◌, refl, none, some, List, [], ◌∷◌, ◌++◌, append_assoc, append-nil, sym, subst,
}
use os_study.Queue.{null, State, queue_put}
use os_study.Queue.Chain.{Cells, IsQueue}
use os_study.Queue.Calls.{queue_put_lem}
use os_study.Programs.Accept.{Accepted, arrived, end_of}
use os_study.Programs.BlockingQueue.{Queued, server_loop}

abbrev pub cells_of : List Queued → Cells
cells_of [] = []
cells_of (c ∷ cs) = (c.mq, c.connfd) ∷ cells_of cs

-- Each `calloc` returns an address that is not in use then.
abbrev pub Allocated : List (Accepted Queued) → State → Type 0
Allocated [] s = Unit
Allocated (Accepted.conn c ∷ xs) s =
    (c.mq ≢ null)
    × (s.heap c.mq ≡ none)
    × ((s' : State) → queue_put c.mq c.connfd s ≡ some s' → Allocated xs s')
Allocated (Accepted.eintr ∷ xs) s = Allocated xs s
Allocated (Accepted.failed ∷ xs) s = Unit

-- The loop makes no bad access, and leaves the connections that arrived behind those that wait, in
-- the order of their arrival; an interrupted `accept` loses none. It ends where `accept` fails.
pub server_loop-IsQueue :
    (xs : List (Accepted Queued)) (s : State) (cells : Cells)
    → IsQueue s cells
    → Allocated xs s
    → (s' : State) × (server_loop xs s ≡ some (end_of xs, s'))
      × IsQueue s' (cells ++ cells_of (arrived xs))
unfolding server_loop
server_loop-IsQueue [] s cells is fresh = (s, refl, subst (IsQueue s) (sym (append-nil cells)) is)
server_loop-IsQueue (Accepted.conn c ∷ xs) s cells is fresh =
    let (s1, put, is1) = queue_put_lem s cells c.mq c.connfd is fresh.0 fresh.1 in
    let (s2, done, is2) =
      server_loop-IsQueue xs s1 (cells ++ (c.mq, c.connfd) ∷ []) is1 (fresh.2 s1 put) in
    (
      s2,
      rw (server_loop, put) done,
      subst (IsQueue s2) (append_assoc cells ((c.mq, c.connfd) ∷ []) (cells_of (arrived xs))) is2,
    )
server_loop-IsQueue (Accepted.eintr ∷ xs) s cells is fresh = server_loop-IsQueue xs s cells is fresh
server_loop-IsQueue (Accepted.failed ∷ xs) s cells is fresh =
    (s, refl, subst (IsQueue s) (sym (append-nil cells)) is)
