-- ===== src/Programs/Sessions.antt =====
-- Sessions: any number of requests, one after the other.
use os_study.Prelude.{ℕ, suc, ◌+◌, ◌≤◌, ◌≡◌, arith, length, List, [], ◌∷◌, All}
use os_study.CLib.Buffer.{zeroed}
use os_study.Http.Types.{buffsize, blank_req}
use os_study.Http.ReadLine.{Reading}
use os_study.Http.ReadLine
use os_study.Http.ReadLine.Bounds.{read_request_line-ne-overrun}
use os_study.Server.World.{World, ok, Call, How}
use os_study.Server.Ensures.{Returns-ok, Ensures, Ensures-bind}
use os_study.Server.Fits.{OsFits}
use os_study.Server.Balance.{InOrder, calls}
use os_study.Server.Served.{Ensures-serve, Ensures-handle_reading}
use os_study.Server.Worker.{Conn, Locals, fresh_locals, do_call_loop, do_call}
use os_study.Programs.Accept.{Accepted, End, arrived}
use os_study.Programs.Threads
use os_study.Programs.PreCreate

abbrev Within : Conn → Type 0
Within c = OsFits c.os × (length c.input ≤ buffsize)

Ensures-do_call_loop :
    (k : ℕ) (cs : List Conn) (l : Locals)
    → All Within cs
    → Ensures (InOrder (length cs + k)) (InOrder k) (do_call_loop cs l)
unfolding do_call_loop
Ensures-do_call_loop k [] l h = record {
  at = λ w i. record { permits = omega (arith, i.permits); balanced = i.balanced };
}
Ensures-do_call_loop k (c ∷ cs) l h = record {
  at = λ w i.
      (Ensures-bind (InOrder (suc (length cs + k))) (InOrder (length cs + k)) (InOrder k) _ _
          (Ensures-serve (length cs + k) c l h.0.0 h.0.1) λ l'. Ensures-do_call_loop k cs l' h.1).at
        w (record { permits = omega (arith, i.permits); balanced = i.balanced });
}

-- A worker of multi_server_thread_blocking_queue.c serves as many requests as the semaphore has
-- permits, each within the limits, whatever the ones before left in its buffers, and no permit is
-- left then.
pub do_call-InOrder_of_permits :
    (k : ℕ) (cs : List Conn) (w : World)
    → All Within cs
    → InOrder (length cs + k) w
    → (l : Locals) × (w' : World) × (do_call cs w ≡ ok l w') × InOrder k w'
unfolding do_call
do_call-InOrder_of_permits k cs w h i =
    Returns-ok (InOrder k) (do_call_loop cs fresh_locals w)
      ((Ensures-do_call_loop k cs fresh_locals h).at w i)

Ensures-do_call :
    (k : ℕ) (c : Conn) → Within c → Ensures (InOrder (suc k)) (InOrder k) (Threads.do_call c)
unfolding Threads.do_call
Ensures-do_call k c h =
    let P = InOrder (suc k) in
    let Q = InOrder k in
    let r = ReadLine.read_request_line zeroed blank_req c.input in
    Ensures-bind P Q Q _ _
      (Ensures-handle_reading k c.os h.0 c.fd r
        (read_request_line-ne-overrun zeroed blank_req c.input h.1))
      λ _.
        Ensures-bind Q Q Q _ _ (calls k (Call.shutdown c.fd How.shut_rdwr))
          λ _. calls k (Call.close_conn c.fd)

-- A thread of multi_server_thread.c that finds the semaphore free serves its request to the end,
-- and keeps the permit: the semaphore is one lower then.
pub do_call-InOrder_thread :
    (k : ℕ) (c : Conn) (w : World)
    → Within c
    → InOrder (suc k) w
    → (u : Unit {0}) × (w' : World) × (Threads.do_call c w ≡ ok u w') × InOrder k w'
do_call-InOrder_thread k c w h i =
    Returns-ok (InOrder k) (Threads.do_call c w) ((Ensures-do_call k c h).at w i)

Ensures-pre_create :
    (k : ℕ) (xs : List (Accepted Conn)) (l : Locals)
    → All Within (arrived xs)
    → Ensures (InOrder (length (arrived xs) + k)) (InOrder k) (PreCreate.do_call_loop xs l)
unfolding PreCreate.do_call_loop
Ensures-pre_create k [] l h = record {
  at = λ w i. record { permits = omega (arith, i.permits); balanced = i.balanced };
}
Ensures-pre_create k (Accepted.conn c ∷ xs) l h =
    let n = length (arrived xs) + k in
    record {
      at = λ w i.
          (Ensures-bind (InOrder (suc n)) (InOrder n) (InOrder k) _ _
              (Ensures-serve n c l h.0.0 h.0.1) λ l'. Ensures-pre_create k xs l' h.1).at
            w (record { permits = omega (arith, i.permits); balanced = i.balanced });
    }
Ensures-pre_create k (Accepted.eintr ∷ xs) l h = Ensures-pre_create k xs l h
Ensures-pre_create k (Accepted.failed ∷ xs) l h = record {
  at = λ w i. record { permits = omega (arith, i.permits); balanced = i.balanced };
}

-- A thread of multi_server_pre_create_thread.c serves every connection that it accepts, each within
-- the limits, as long as the semaphore has a permit for each, whatever interrupts `accept`.
pub do_call-InOrder_pre_create :
    (k : ℕ) (xs : List (Accepted Conn)) (w : World)
    → All Within (arrived xs)
    → InOrder (length (arrived xs) + k) w
    → (e : End) × (w' : World) × (PreCreate.do_call xs w ≡ ok e w') × InOrder k w'
unfolding PreCreate.do_call
do_call-InOrder_pre_create k xs w h i =
    Returns-ok (InOrder k) (PreCreate.do_call_loop xs fresh_locals w)
      ((Ensures-pre_create k xs fresh_locals h).at w i)
