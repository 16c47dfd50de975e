-- ===== src/Process/Answer/Exact.antt =====
-- `do_call` of the pool sends the answers of Process/Answer, and counts each once; and so do the
-- tests on a request over either way to read `requests`.
use os_study.Prelude.{ℕ, suc, ◌≡◌, refl, ap, subst, arith, not, ◌||◌, none, some, ◌++◌, codes}
use os_study.Prelude.Int.{is_minus_one}
use os_study.CLib.Buffer.{zeroed}
use os_study.Http.Types.{ReqLine, blank_req}
use os_study.Http.ReadLine.{Reading, read_request_line}
use os_study.Server.World.{Call, How, World, ok, Cmd}
use os_study.Server.Files.{path_of, is_dir}
use os_study.Server.Fits.{OsFits, statistics_text-fits}
use os_study.Server.Worker.{is_get, is_statistics, statistics_text}
use os_study.Process.Call.{
  Client, is_bash, command_of, statistics, answer, handle_reading, handle, do_call_pool,
}
use os_study.Process.Stream.{part, Lasting, lasting, received, Sends-silent}
use os_study.Process.Counting.{counted, with_post, Totals, with_lock}
use os_study.Process.Answer.{Answer, after, page, answer_of_line, answer_of}
use os_study.Process.Answer.Gives.{
  Gives, Gives-quiet, Gives-then, Gives-if, Obeys, Obeys-if, Gives-run,
}
use os_study.Process.Answer.Scripts.{handle_bash-Obeys}
use os_study.Process.Answer.Handlers.{response-Sends, ls_version_two-Gives, req_parser-Gives}

module _ {total_of : Cmd ℕ} (reader : Totals total_of) (c : Client) (fits : OsFits c.os)
    (s : Lasting) (k : ℕ) (free : s.permits ≡ suc k) where
  statistics-Gives :
      Gives counted c.fd s
        (page 200 (codes "Ok") (statistics_text s.stats.requests))
        (statistics total_of c)
  unfolding statistics
  statistics-Gives = record {
    sends =
        reader.totals c.fd k s (counted 200 s) _ _ free
          (response-Sends with_post c.os fits c.fd s k free 200 (codes "Ok")
            (some (statistics_text s.stats.requests)) (omega arith) (omega arith)
            (statistics_text-fits s.stats.requests)).sends;
  }

  answer-Obeys : (q : ReqLine) → Obeys counted c.fd s (answer_of_line c s q) (answer total_of c q)
  unfolding answer
  answer-Obeys q =
      let path = path_of q.req_uri in
      let choose = Obeys-if counted c.fd s {A = Unit {0}} in
      choose (not (is_get q.method)) _ _ _ _
        (response-Sends with_post c.os fits c.fd s k free 405 (codes "Method Not Allowed") none
          (omega arith) (omega arith) tt)
        (choose (is_minus_one q.version.major || is_minus_one q.version.major) _ _ _ _
          (response-Sends with_post c.os fits c.fd s k free 505 (codes "HTTP Version Not Supported")
            none (omega arith) (omega arith) tt)
          (choose (is_statistics q.req_uri) _ _ _ _ statistics-Gives (
            choose (is_bash q.req_uri) _ _ _ _
              (handle_bash-Obeys c.os fits c.fd s k free (command_of q.req_uri)
                (c.script (command_of q.req_uri)))
              (Gives-if counted c.fd s (is_dir c.os path) _ _ _ _
                (ls_version_two-Gives with_post c.os fits c.fd s k free path)
                (Gives-then counted c.fd s _ _ tt
                  (req_parser-Gives with_post c.os fits c.fd s k free q.req_uri))))))

  handle_reading-Obeys :
      (r : Reading) → Obeys counted c.fd s (answer_of c s r) (handle_reading total_of c r)
  handle_reading-Obeys (Reading.line t rest) = answer-Obeys t.req_line
  handle_reading-Obeys (Reading.error t rest) =
      response-Sends with_post c.os fits c.fd s k free 400 (codes "Bad request") none (omega arith)
        (omega arith) tt
  handle_reading-Obeys Reading.overrun = tt

  pub handle-Gives :
      (a : Answer)
      → answer_of c s (read_request_line zeroed blank_req c.input) ≡ some a
      → Gives counted c.fd s a (handle total_of c)
  unfolding handle
  handle-Gives a e =
      let r = read_request_line zeroed blank_req c.input in
      subst (λ o. Obeys counted c.fd s o (handle_reading total_of c r)) e (handle_reading-Obeys r)

-- In a process of the pool that finds the semaphore free, each request comes to its end, unless its
-- request line overruns recv_buffer or the client leaves while its script runs: the client receives
-- exactly the bytes of its answer, and no other client anything, whatever the file system holds and
-- whenever SIGALRM stops the script; the answer's code is counted once, `need_stop_script` is set by
-- SIGALRM and by nothing else, and the semaphore is as it was. The texts of the system fit.
pub do_call_pool-answered :
    (c : Client) (w : World) (k : ℕ) (a : Answer)
    → OsFits c.os
    → w.sem ≡ suc k
    → answer_of c (lasting w) (read_request_line zeroed blank_req c.input) ≡ some a
    → (w' : World) × (do_call_pool c w ≡ ok tt w')
      × (w'.sem ≡ w.sem)
      × (lasting w' ≡ after counted a (lasting w))
      × ((x : ℕ) → received x w'.calls ≡ received x w.calls ++ part x c.fd a.bytes)
unfolding do_call_pool received
do_call_pool-answered c w k a fits free e =
    let (x, w', run, stays, got) = Gives-run counted c.fd a w (do_call_pool c) (
      Gives-quiet counted c.fd (lasting w) a _ _
        (handle-Gives with_lock c fits (lasting w) k free a e)
        λ _. Sends-silent c.fd _ (Call.shutdown c.fd How.shut_wr) λ y calls. refl) in
    (w', run, ap (λ (t : Lasting). t.permits) stays, stays, got)
