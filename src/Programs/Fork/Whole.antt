-- ===== src/Programs/Fork/Whole.antt =====
-- What multi_server.c as a whole gives its clients, and prints.
use mathlib.Core.List.{Perm}
use os_study.Prelude.{ℕ, ◌+◌, ◌≡◌, refl, arith, false, some, List, ◌∷◌, ◌++◌}
use os_study.CLib.Buffer.{zeroed}
use os_study.Http.Types.{blank_req}
use os_study.Http.ReadLine.{read_request_line}
use os_study.Server.Fits.{OsFits}
use os_study.Process.Call.{Client, Attach}
use os_study.Process.Stream.{lasting, received}
use os_study.Process.Answer.{Answer, answer_of}
use os_study.Programs.Fork.Children.{child-answered}
use os_study.Programs.Fork.Exact.{
  Exact, booted, accept-Exact, serve-Exact, refuse-Exact, report-Exact,
}
use os_study.Programs.Fork.System.{
  Event, Servers, world_of, left_by, fails, Step, Reach, delivered, counted_in, reports_of,
  forked_of, ended_of, signals_of, count_reports,
}

exact : {s : Servers} → Reach s → Exact s
exact (Reach.begin b fork_failed m e) = booted b fork_failed m e
exact (Reach.next {s} reach (Step.accept x e w listens run)) =
    accept-Exact s x e w (exact reach) run
exact (Reach.next {s} reach (Step.serve front back c t a w waits fits attached e run)) =
    serve-Exact s (exact reach) front back c t a w waits fits attached e run
exact (Reach.next {s} reach (Step.refuse front back c t w waits failed run)) =
    refuse-Exact s (exact reach) front back c t w waits failed run
exact (Reach.next {s} reach Step.signal) =
    let before = exact reach in
    record {
      got = before.got;
      stats = before.stats;
      free = before.free;
      printed = before.printed;
      posted = omega (arith, before.posted);
      books = before.books;
    }
exact (Reach.next {s} reach (Step.report n printed w posted run)) =
    report-Exact s (exact reach) n printed w posted run

-- In every reachable state of multi_server.c on a platform other than Linux, whatever an earlier run
-- has left, in whatever order connections arrive, children run and SIGUSR1 comes: the bytes sent on
-- each descriptor number are exactly those of the answers given on it, one after the other; the
-- statistics count the answers one by one; the semaphore is 1; each report printed is the number of
-- requests counted at its time, and a signal has been reported or is still posted; and every
-- connection that a child was forked for waits for its child or was brought to its end once. No
-- request line overruns recv_buffer, no client leaves while its script runs, and the texts of the
-- system fit.
pub reach-exact :
    {s : Servers}
    → Reach s
    → ((x : ℕ) → received x s.calls ≡ delivered x s.events)
      × (s.stats ≡ counted_in s.events)
      × (s.sem ≡ 1)
      × (s.printed ≡ reports_of s.events)
      × (s.posted + count_reports s.events ≡ signals_of s.events)
      × Perm (forked_of s.events) (s.pending ++ ended_of s.events)
reach-exact reach =
    let all = exact reach in (all.got, all.stats, all.free, all.printed, all.posted, all.books)

-- No child is kept waiting: in every reachable state of multi_server.c, whatever else waits, every
-- child that attaches brings its connection to its end, where the request has an answer and the texts
-- of the system fit.
pub reach-child_serves :
    {s : Servers} (front back : List ℕ) (c : Client) (t : Attach) (a : Answer)
    → Reach s
    → s.pending ≡ front ++ c.fd ∷ back
    → OsFits c.os
    → fails t ≡ false
    → answer_of c (lasting (world_of s)) (read_request_line zeroed blank_req c.input) ≡ some a
    → (s' : Servers) × Step s s'
      × (s'.events ≡ Event.answered c.fd a ∷ s.events)
      × (s'.pending ≡ front ++ back)
reach-child_serves {s} front back c t a reach waits fits attached e =
    let (w, run, _, _) = child-answered c t (world_of s) 0 a fits attached (exact reach).free e in
    (
      record (left_by s w (Event.answered c.fd a)) { pending = front ++ back },
      Step.serve front back c t a w waits fits attached e run,
      refl,
      refl,
    )
