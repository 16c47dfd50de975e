-- ===== src/Server/Served.antt =====
-- A request that a worker of multi_server_thread_blocking_queue.c serves.
use os_study.Prelude.{
  ℕ, zero, suc, ◌≤◌, ◌<◌, ◌≡◌, ◌≢◌, refl, arith, length, Option, none, some, codes, ◌||◌, not,
}
use os_study.Prelude.Int.{is_minus_one}
use os_study.Http.Types.{ReqLine, buffsize}
use os_study.Http.ReadLine.{Reading, read_request_line}
use os_study.Http.ReadLine.Bounds.{read_request_line-ne-overrun}
use os_study.Server.World.{Text, World, ok, Call, How, sem_wait, Os}
use os_study.Server.Reply.{response}
use os_study.Server.Stats.{record_code, write_code_thread}
use os_study.Server.Files.{is_dir, path_of}
use os_study.Server.Worker.{
  Conn, Locals, is_get, is_statistics, statistics_text, statistics, answer, handle_reading, serve,
}
use os_study.Server.Ensures.{Returns, Returns-ok, Ensures, Ensures-pure, Ensures-bind, Ensures-if}
use os_study.Server.Fits.{OsFits, MessageFits, statistics_text-fits}
use os_study.Server.Books.{
  IsClass, Writes, Ensures-response, Ensures-ls_version_two, Ensures-req_parser,
}
use os_study.Server.Balance.{InOrder, calls, count_code-IsBalanced, Ensures-read_total}

module _ (k : ℕ) where
  abbrev P : World → Type 0
  P = InOrder (suc k)

  abbrev Q : World → Type 0
  Q = InOrder k

  write_at :
      (code : ℕ) (w : World) (s : ℕ)
      → w.sem ≡ s
      → IsClass code
      → P w
      → Returns Q (write_code_thread code w)
  unfolding write_code_thread record_code
  write_at code w zero e c h = rw (e, sem_wait) (omega (arith, h.permits, e))
  write_at code w (suc s) e c h =
      rw (e, sem_wait)
        (record {
          permits = omega (arith, h.permits, e);
          balanced = count_code-IsBalanced code w.stats c h.balanced;
        })

  writes : Writes P Q write_code_thread
  writes = record {
    before = calls (suc k);
    after = calls k;
    write = λ code c. record { at = λ w h. write_at code w w.sem refl c h };
  }

  module _ (os : Os) (fits : OsFits os) (connfd : ℕ) where
    reply :
        (code : ℕ) (reason : Text) (message : Option Text)
        → IsClass code
        → length reason < 4096
        → MessageFits message
        → Ensures P Q (response write_code_thread os connfd code reason message)
    reply = Ensures-response P Q write_code_thread writes os fits connfd

    Ensures-statistics : Ensures P Q (statistics os connfd)
    unfolding statistics
    Ensures-statistics = Ensures-bind P P Q _ _ (Ensures-read_total k) λ n.
        reply 200 (codes "Ok") (some (statistics_text n)) (omega arith) (omega arith)
          (statistics_text-fits n)

    Ensures-answer : (q : ReqLine) → Ensures P Q (answer os connfd q)
    unfolding answer
    Ensures-answer q =
        let path = path_of q.req_uri in
        Ensures-if P Q (not (is_get q.method))
          (Ensures-bind P Q Q _ _
            (reply 405 (codes "Method Not Allowed") none (omega arith) (omega arith) tt)
            λ _. Ensures-pure Q q)
          (Ensures-if P Q (is_minus_one q.version.major || is_minus_one q.version.major)
            (Ensures-bind P Q Q _ _
              (reply 505 (codes "HTTP Version Not Supported") none (omega arith) (omega arith) tt)
              λ _. Ensures-pure Q q)
            (Ensures-if P Q (is_statistics q.req_uri)
              (Ensures-bind P Q Q _ _ Ensures-statistics λ _. Ensures-pure Q q)
              (Ensures-if P Q (is_dir os path)
                (Ensures-bind P Q Q _ _
                  (Ensures-ls_version_two P Q write_code_thread writes os fits connfd path)
                  λ _. Ensures-pure Q q)
                (Ensures-bind P Q Q _ _
                  (Ensures-req_parser P Q write_code_thread writes os fits connfd q.req_uri)
                  λ uri. Ensures-pure Q (record q { req_uri = uri })))))

    pub Ensures-handle_reading :
        (r : Reading) → r ≢ Reading.overrun → Ensures P Q (handle_reading os connfd r)
    Ensures-handle_reading (Reading.line r rest) h =
        Ensures-bind P Q Q _ _ (Ensures-answer r.req_line)
          λ q. Ensures-pure Q (record { recv_buffer = r.recv_buffer; req_buf = q })
    Ensures-handle_reading (Reading.error r rest) h =
        Ensures-bind P Q Q _ _ (reply 400 (codes "Bad request") none (omega arith) (omega arith) tt)
          λ _. Ensures-pure Q (record { recv_buffer = r.recv_buffer; req_buf = r.req_line })
    Ensures-handle_reading Reading.overrun h = absurd (h refl)

  pub Ensures-serve :
      (c : Conn) (l : Locals) → OsFits c.os → length c.input ≤ buffsize → Ensures P Q (serve c l)
  unfolding serve
  Ensures-serve c l fits short =
      let r = read_request_line l.recv_buffer l.req_buf c.input in
      Ensures-bind P Q Q _ _
        (Ensures-handle_reading c.os fits c.fd r
          (read_request_line-ne-overrun l.recv_buffer l.req_buf c.input short))
        λ l'.
          Ensures-bind Q Q Q _ _ (calls k (Call.shutdown c.fd How.shut_wr)) λ _. Ensures-pure Q l'

-- A worker that finds the semaphore free serves a request of at most BUFFSIZE bytes to its end,
-- with whatever the last request left in its buffers, where the texts of the operating system fit
-- theirs. The semaphore is one lower then, and `requests` is still the sum of the four classes, as
-- `int`s.
pub serve-InOrder :
    (c : Conn) (l : Locals) (k : ℕ) (w : World)
    → OsFits c.os
    → length c.input ≤ buffsize
    → InOrder (suc k) w
    → (l' : Locals) × (w' : World) × (serve c l w ≡ ok l' w') × InOrder k w'
serve-InOrder c l k w fits short h =
    Returns-ok (InOrder k) (serve c l w) ((Ensures-serve k c l fits short).at w h)
