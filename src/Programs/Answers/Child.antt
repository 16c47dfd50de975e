-- ===== src/Programs/Answers/Child.antt =====
-- A child of multi_server.c sends the answers of Process/Answer.
use os_study.Prelude.{ℕ, suc, ◌≡◌, refl, Bool, false, ◌||◌, some, ◌++◌, true, [], if◌then◌else◌}
use os_study.CLib.Buffer.{zeroed}
use os_study.Http.Types.{blank_req}
use os_study.Http.ReadLine.{read_request_line}
use os_study.Server.World.{Call, How, World, ok, ◌>>=◌}
use os_study.Server.Worker.{load_requests}
use os_study.Server.Fits.{OsFits}
use os_study.Process.Call.{Client, Attach, handle, finish, do_call}
use os_study.Process.Stream.{part, Lasting, lasting, received, Sends, Sends-bind, Sends-silent}
use os_study.Process.Counting.{counted, without_lock}
use os_study.Process.Answer.{Answer, after, answer_of}
use os_study.Process.Answer.Gives.{Gives, Gives-quiet, Gives-run}
use os_study.Process.Answer.Exact.{handle-Gives}

finish-Sends : (c : Client) (s : Lasting) → Sends c.fd s s [] (finish c true)
unfolding finish received
finish-Sends c s =
    Sends-bind c.fd s s s _ _ _ _ (Sends-silent c.fd s Call.detach_stats λ x calls. refl) λ _.
      Sends-bind c.fd s s s _ _ _ _ (Sends-silent c.fd s Call.close_sem λ x calls. refl)
        λ _. Sends-silent c.fd s (Call.shutdown c.fd How.shut_rd) λ x calls. refl

attached-Gives :
    (c : Client) (t : Bool) (s : Lasting) (a : Answer)
    → t ≡ false
    → Gives counted c.fd s a (handle load_requests c)
    → Gives counted c.fd s a
        (if t then finish c false else (handle load_requests c >>= λ _. finish c true))
attached-Gives c t s a e g =
    rw e (Gives-quiet counted c.fd s a _ _ g λ _. finish-Sends c (after counted a s))

-- A child of multi_server.c that attaches to the statistics and finds the semaphore free brings its
-- request to its end, unless the request line overruns recv_buffer or the client leaves while its
-- script runs: the client receives exactly the bytes of its answer, and no other client anything;
-- the answer's code is counted once, and the semaphore is as it was. The texts of the system fit.
pub do_call-child_answered :
    (c : Client) (t : Attach) (w : World) (k : ℕ) (a : Answer)
    → OsFits c.os
    → (t.sem_failed || (t.ftok_failed || t.shmat_null)) ≡ false
    → w.sem ≡ suc k
    → answer_of c (lasting w) (read_request_line zeroed blank_req c.input) ≡ some a
    → (w' : World) × (do_call c t w ≡ ok tt w')
      × (lasting w' ≡ after counted a (lasting w))
      × ((x : ℕ) → received x w'.calls ≡ received x w.calls ++ part x c.fd a.bytes)
unfolding do_call
do_call-child_answered c t w k a fits attached free e =
    let (x, w', run, stays, got) = Gives-run counted c.fd a w (do_call c t) (
      attached-Gives c (t.sem_failed || (t.ftok_failed || t.shmat_null)) (lasting w) a attached
        (handle-Gives without_lock c fits (lasting w) k free a e)) in
    (w', run, stays, got)
