-- ===== src/Programs/Answers/Same.antt =====
-- The three kinds of server against each other.
use os_study.Prelude.{
  ℕ, suc, ◌≡◌, ◌≢◌, refl, ap, sym, ◌∙◌, arith, Bool, false, true, ◌||◌, not, Option, some,
  if◌then◌else◌,
}
use os_study.Prelude.Int.{is_minus_one}
use os_study.CLib.Buffer.{zeroed}
use os_study.Http.Types.{ReqLine, blank_req}
use os_study.Http.ReadLine.{Reading, read_request_line}
use os_study.Server.World.{World, ok, Os}
use os_study.Server.Worker.{Conn, is_get, is_statistics}
use os_study.Server.Fits.{OsFits}
use os_study.Process.Call.{Client, Attach, is_bash, do_call_pool}
use os_study.Process.Call
use os_study.Process.Stream.{Lasting, lasting, received}
use os_study.Process.Answer.{Answer, page_of, tested_line, answer_of, thread_answer}
use os_study.Process.Answer.Exact.{do_call_pool-answered}
use os_study.Programs.Threads
use os_study.Programs.Answers.Threads.{do_call-answered}
use os_study.Programs.Answers.Child.{do_call-child_answered}

-- The same client, as a thread serves it.
abbrev pub conn_of : Client → Conn
conn_of c = record { fd = c.fd; input = c.input; os = c.os }

-- The URI names a script.
abbrev pub asks_script : Reading → Bool
asks_script (Reading.line t rest) = is_bash t.req_line.req_uri
asks_script _ = false

tested_line-some :
    (os : Os) (s : Lasting) (q : ReqLine) (other : Answer)
    → (a : Answer) × (tested_line os s q (some other) ≡ some a)
tested_line-some os s q other = chosen (not (is_get q.method)) _ _ (
    chosen (is_minus_one q.version.major || is_minus_one q.version.major) _ _
      (chosen (is_statistics q.req_uri) _ _ (other, refl)))
  where
    chosen :
        (t : Bool) (x : Answer) (o : Option Answer)
        → (a : Answer) × (o ≡ some a)
        → (a : Answer) × ((if t then some x else o) ≡ some a)
    chosen true x o h = (x, refl)
    chosen false x o h = h

thread_answer-some :
    (os : Os) (s : Lasting) (r : Reading)
    → r ≢ Reading.overrun
    → (a : Answer) × (thread_answer os s r ≡ some a)
thread_answer-some os s (Reading.line t rest) h =
    tested_line-some os s t.req_line (page_of os t.req_line.req_uri)
thread_answer-some os s (Reading.error t rest) h = (_, refl)
thread_answer-some os s Reading.overrun h = absurd (h refl)

no_script :
    (c : Client) (s : Lasting) (r : Reading)
    → asks_script r ≡ false
    → answer_of c s r ≡ thread_answer c.os s r
no_script c s (Reading.line t rest) e = rw e refl
no_script c s (Reading.error t rest) e = refl
no_script c s Reading.overrun e = refl

-- A process of the pool, a child of multi_server.c that attaches to the statistics and a thread of
-- multi_server_thread.c, each from the same free semaphore and the same statistics, serve a request
-- whose URI names no script and whose request line does not overrun recv_buffer: all three bring it
-- to its end, every connection has received the same bytes behind each, and each leaves the same
-- statistics. Only the semaphore differs: the thread leaves it one lower. The texts of the system
-- fit.
pub do_call-same :
    (c : Client) (t : Attach) (w : World) (k : ℕ)
    → OsFits c.os
    → (t.sem_failed || (t.ftok_failed || t.shmat_null)) ≡ false
    → w.sem ≡ suc k
    → read_request_line zeroed blank_req c.input ≢ Reading.overrun
    → asks_script (read_request_line zeroed blank_req c.input) ≡ false
    → (wp : World) × (wc : World) × (wt : World) × (do_call_pool c w ≡ ok tt wp)
      × (Call.do_call c t w ≡ ok tt wc)
      × (Threads.do_call (conn_of c) w ≡ ok tt wt)
      × ((x : ℕ)
          → (received x wp.calls ≡ received x wt.calls)
            × (received x wc.calls ≡ received x wt.calls))
      × (wp.stats ≡ wt.stats)
      × (wc.stats ≡ wt.stats)
      × (wp.sem ≡ suc wt.sem)
      × (wc.sem ≡ suc wt.sem)
do_call-same c t w k fits attached free in_bounds plain =
    let r = read_request_line zeroed blank_req c.input in
    let (a, e) = thread_answer-some c.os (lasting w) r in_bounds in
    let same = no_script c (lasting w) r plain ∙ e in
    let (wp, runs_p, sem, stays_p, got_p) = do_call_pool-answered c w k a fits free same in
    let (wc, runs_c, stays_c, got_c) = do_call-child_answered c t w k a fits attached free same in
    let (wt, runs_t, stays_t, got_t) = do_call-answered (conn_of c) w k a fits free e in
    let lower = ap (λ (l : Lasting). l.permits) stays_t in
    (
      wp,
      wc,
      wt,
      runs_p,
      runs_c,
      runs_t,
      λ x. (got_p x ∙ sym (got_t x), got_c x ∙ sym (got_t x)),
      ap (λ (l : Lasting). l.stats) stays_p ∙ sym (ap (λ (l : Lasting). l.stats) stays_t),
      ap (λ (l : Lasting). l.stats) stays_c ∙ sym (ap (λ (l : Lasting). l.stats) stays_t),
      omega (arith, free, lower, ap (λ (l : Lasting). l.permits) stays_p),
      omega (arith, free, lower, ap (λ (l : Lasting). l.permits) stays_c),
    )
