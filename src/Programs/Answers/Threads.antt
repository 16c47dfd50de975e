-- ===== src/Programs/Answers/Threads.antt =====
-- A thread sends the answers of Process/Answer: `do_call` of the programs with threads.
use os_study.Prelude.{ℕ, suc, ◌≡◌, refl, ap, ◌∙◌, subst, arith, not, ◌||◌, none, some, ◌++◌, codes}
use os_study.Prelude.Int.{is_minus_one}
use os_study.CLib.Buffer.{zeroed}
use os_study.Http.Types.{ReqLine, blank_req}
use os_study.Http.ReadLine.{Reading, read_request_line}
use os_study.Server.World.{Call, How, World, ok, Os}
use os_study.Server.Files.{is_dir, path_of}
use os_study.Server.Fits.{OsFits, statistics_text-fits}
use os_study.Server.Worker.{
  Conn, Locals, is_get, is_statistics, statistics_text, statistics, answer, handle_reading, serve,
}
use os_study.Process.Stream.{part, Lasting, lasting, received, Sends-pure, Sends-bind, Sends-silent}
use os_study.Process.Counting.{spent, without_post, with_lock}
use os_study.Process.Answer.{Answer, after, page, page_of, tested_line, thread_answer}
use os_study.Process.Answer.Gives.{
  Gives, Gives-quiet, Gives-then, Gives-if, Gives-run, Obeys, Obeys-then, Obeys-if,
}
use os_study.Process.Answer.Handlers.{response-Sends, ls_version_two-Gives, req_parser-Gives}
use os_study.Programs.Threads.{do_call}

module _ (os : Os) (fits : OsFits os) (fd : ℕ) (s : Lasting) (k : ℕ)
    (free : s.permits ≡ suc k) where
  statistics-Gives :
      Gives spent fd s (page 200 (codes "Ok") (statistics_text s.stats.requests)) (statistics os fd)
  unfolding statistics
  statistics-Gives = record {
    sends =
        with_lock.totals fd k s (spent 200 s) _ _ free
          (response-Sends without_post os fits fd s k free 200 (codes "Ok")
            (some (statistics_text s.stats.requests)) (omega arith) (omega arith)
            (statistics_text-fits s.stats.requests)).sends;
  }

  answer-Obeys :
      (q : ReqLine)
      → Obeys spent fd s (tested_line os s q (some (page_of os q.req_uri))) (answer os fd q)
  unfolding answer
  answer-Obeys q =
      let path = path_of q.req_uri in
      let choose = Obeys-if spent fd s {A = ReqLine} in
      let say = response-Sends without_post os fits fd s k free in
      choose (not (is_get q.method)) _ _ _ _
        (Gives-then spent fd s _ _ q
          (say 405 (codes "Method Not Allowed") none (omega arith) (omega arith) tt))
        (choose (is_minus_one q.version.major || is_minus_one q.version.major) _ _ _ _
          (Gives-then spent fd s _ _ q
            (say 505 (codes "HTTP Version Not Supported") none (omega arith) (omega arith) tt))
          (choose (is_statistics q.req_uri) _ _ _ _ (Gives-then spent fd s _ _ q statistics-Gives) (
            Gives-if spent fd s (is_dir os path) _ _ _ _
              (Gives-then spent fd s _ _ q
                (ls_version_two-Gives without_post os fits fd s k free path))
              (Gives-quiet spent fd s _ _ _
                (req_parser-Gives without_post os fits fd s k free q.req_uri)
                λ uri. Sends-pure fd _ (record q { req_uri = uri })))))

  handle_reading-Obeys :
      (r : Reading) → Obeys spent fd s (thread_answer os s r) (handle_reading os fd r)
  handle_reading-Obeys (Reading.line t rest) = Obeys-then spent fd s _ _ _ (answer-Obeys t.req_line)
  handle_reading-Obeys (Reading.error t rest) = Gives-then spent fd s _ _ _ (
      response-Sends without_post os fits fd s k free 400 (codes "Bad request") none (omega arith)
        (omega arith) tt)
  handle_reading-Obeys Reading.overrun = tt

  handle_reading-Gives :
      (r : Reading) (a : Answer)
      → thread_answer os s r ≡ some a
      → Gives spent fd s a (handle_reading os fd r)
  handle_reading-Gives r a e =
      subst (λ o. Obeys spent fd s o (handle_reading os fd r)) e (handle_reading-Obeys r)

-- A worker of the blocking queue, or a thread of multi_server_pre_create_thread.c, that finds the
-- semaphore free: whatever the requests before have left in its buffers, each request comes to its
-- end, unless its request line overruns recv_buffer. The client receives exactly the bytes of its
-- answer, and no other client anything; the answer's code is counted once, and the semaphore is one
-- lower. The texts of the system fit.
pub serve-answered :
    (c : Conn) (l : Locals) (w : World) (k : ℕ) (a : Answer)
    → OsFits c.os
    → w.sem ≡ suc k
    → thread_answer c.os (lasting w) (read_request_line l.recv_buffer l.req_buf c.input) ≡ some a
    → (l' : Locals) × (w' : World) × (serve c l w ≡ ok l' w')
      × (w'.sem ≡ k)
      × (lasting w' ≡ after spent a (lasting w))
      × ((x : ℕ) → received x w'.calls ≡ received x w.calls ++ part x c.fd a.bytes)
unfolding serve received
serve-answered c l w k a fits free e =
    let r = read_request_line l.recv_buffer l.req_buf c.input in
    let s' = after spent a (lasting w) in
    let (l', w', run, stays, got) = Gives-run spent c.fd a w (serve c l) (
      Gives-quiet spent c.fd (lasting w) a _ _
        (handle_reading-Gives c.os fits c.fd (lasting w) k free r a e)
        λ l'.
          Sends-bind c.fd s' s' s' _ _ _ _
            (Sends-silent c.fd s' (Call.shutdown c.fd How.shut_wr) λ x calls. refl)
            λ _. Sends-pure c.fd s' l') in
    (l', w', run, ap (λ (t : Lasting). t.permits) stays ∙ omega (arith, free), stays, got)

-- A thread of multi_server_thread.c that finds the semaphore free brings its request to its end,
-- unless the request line overruns recv_buffer: the client receives exactly the bytes of its answer,
-- and no other client anything; the answer's code is counted once, and the semaphore is one lower.
-- The texts of the system fit.
pub do_call-answered :
    (c : Conn) (w : World) (k : ℕ) (a : Answer)
    → OsFits c.os
    → w.sem ≡ suc k
    → thread_answer c.os (lasting w) (read_request_line zeroed blank_req c.input) ≡ some a
    → (w' : World) × (do_call c w ≡ ok tt w')
      × (lasting w' ≡ after spent a (lasting w))
      × ((x : ℕ) → received x w'.calls ≡ received x w.calls ++ part x c.fd a.bytes)
unfolding do_call received
do_call-answered c w k a fits free e =
    let r = read_request_line zeroed blank_req c.input in
    let s' = after spent a (lasting w) in
    let (x, w', run, stays, got) = Gives-run spent c.fd a w (do_call c) (
      Gives-quiet spent c.fd (lasting w) a _ _
        (handle_reading-Gives c.os fits c.fd (lasting w) k free r a e)
        λ _.
          Sends-bind c.fd s' s' s' _ _ _ _
            (Sends-silent c.fd s' (Call.shutdown c.fd How.shut_rdwr) λ x calls. refl)
            λ _. Sends-silent c.fd s' (Call.close_conn c.fd) λ x calls. refl) in
    (w', run, stays, got)
