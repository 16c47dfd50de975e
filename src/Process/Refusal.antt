-- ===== src/Process/Refusal.antt =====
-- The requests that a process of the pool refuses: what it sends, and how it counts them.
use os_study.Prelude.{
  ℕ, suc, ◌<◌, ◌≡◌, refl, sym, ap, subst, ◌∙◌, arith, Bool, true, false, not, ◌||◌, Option, none,
  some, ◌∷◌, ◌++◌, codes, length, if◌then◌else◌, lt→ltb,
}
use os_study.Prelude.Int.{is_minus_one}
use os_study.CLib.Buffer.{zeroed}
use os_study.Http.Types.{ReqLine, buffsize, blank_req}
use os_study.Http.ReadLine.{Reading, read_request_line}
use os_study.Server.World.{
  Text, World, Run, ok, Call, How, Cmd, ◌>>◌, and_then, call, send_text, sem_wait,
}
use os_study.Server.Reply.{response, crlf, html_header, status_line}
use os_study.Server.Stats.{count_code, record_code, write_code}
use os_study.Server.Fits.{OsFits, status_line-fits, append-fits}
use os_study.Server.Worker.{is_get, read_total}
use os_study.Process.Call.{Client, answer, handle_reading, handle, do_call_pool}

-- `send_buffer` sent whole.
sent :
    (fd : ℕ) (t : Text) (w : World)
    → length t < buffsize
    → send_text fd t w ≡ ok tt (record w { calls = Call.send fd t ∷ w.calls })
unfolding send_text call
sent fd t w h = rw (lt→ltb (length t) buffsize h) refl

step :
    {B : Type 0} (fd : ℕ) (t : Text) (w : World) (n : Cmd B)
    → length t < buffsize
    → (send_text fd t >> n) w ≡ n (record w { calls = Call.send fd t ∷ w.calls })
step fd t w n h = ap (λ r. and_then r (λ _. n)) (sent fd t w h)

waited : (w : World) (k : ℕ) → w.sem ≡ suc k → sem_wait w ≡ ok tt (record w { sem = k })
unfolding sem_wait
waited w k e = rw e refl

counted :
    (code : ℕ) (w : World) (k : ℕ)
    → w.sem ≡ suc k
    → write_code code w ≡ ok tt (record w { stats = count_code code w.stats })
unfolding write_code record_code
counted code w k e =
    rw (waited w k e)
      (ap (λ s. ok tt (record w { stats = count_code code w.stats; sem = s })) (sym e))

-- The four sends of a reply with no message, the last one first, and the shutdown behind them.
abbrev pub replied : Client → ℕ → Text → World → World
replied c code reason w = record w {
  calls =
      Call.shutdown c.fd How.shut_wr
      ∷ Call.send c.fd (c.os.null_text ++ crlf)
      ∷ Call.send c.fd crlf
      ∷ Call.send c.fd html_header
      ∷ Call.send c.fd (status_line code reason)
      ∷ w.calls;
  stats = count_code code w.stats;
}

-- The status of a refusal: 400 for what is no request line, 405 for a method other than GET, 505
-- where the major version is read as -1, as it is where there is none.
abbrev pub line_refusal : ReqLine → Option (ℕ × Text)
line_refusal q =
    if not (is_get q.method)
    then some (405, codes "Method Not Allowed")
    else if is_minus_one q.version.major
    then some (505, codes "HTTP Version Not Supported")
    else none

abbrev pub refusal : Reading → Option (ℕ × Text)
refusal (Reading.line t rest) = line_refusal t.req_line
refusal (Reading.error t rest) = some (400, codes "Bad request")
refusal Reading.overrun = none

module _ (c : Client) (fits : OsFits c.os) (w : World) (k : ℕ) (free : w.sem ≡ suc k) where
  reply_sent :
      (code : ℕ) (reason : Text)
      → length (status_line code reason) < buffsize
      → response write_code c.os c.fd code reason none w
        ≡ ok tt (record w {
          calls =
              Call.send c.fd (c.os.null_text ++ crlf)
              ∷ Call.send c.fd crlf
              ∷ Call.send c.fd html_header
              ∷ Call.send c.fd (status_line code reason)
              ∷ w.calls;
          stats = count_code code w.stats;
        })
  unfolding response
  reply_sent code reason h =
      let w1 = record w { calls = Call.send c.fd (status_line code reason) ∷ w.calls } in
      let w2 = record w1 { calls = Call.send c.fd html_header ∷ w1.calls } in
      let w3 = record w2 { calls = Call.send c.fd crlf ∷ w2.calls } in
      let w4 = record w3 { calls = Call.send c.fd (c.os.null_text ++ crlf) ∷ w3.calls } in
      let n4 = write_code code in
      let n3 = send_text c.fd (c.os.null_text ++ crlf) >> n4 in
      let n2 = send_text c.fd crlf >> n3 in
      let n1 = send_text c.fd html_header >> n2 in
      step c.fd (status_line code reason) w n1 h
      ∙ (step c.fd html_header w1 n2 (omega arith)
          ∙ (step c.fd crlf w2 n3 (omega arith)
              ∙ (step c.fd (c.os.null_text ++ crlf) w3 n4
                    (append-fits c.os.null_text crlf fits.null (omega arith))
                  ∙ counted code w4 k free)))

-- A run that replies as a refusal says.
abbrev IsReply : Client → World → Option (ℕ × Text) → Run (Unit {0}) → Type 0
IsReply c w none run = Unit
IsReply c w (some (code, reason)) run =
    (run ≡ response write_code c.os c.fd code reason none w)
    × (length (status_line code reason) < buffsize)

fits_405 : length (status_line 405 (codes "Method Not Allowed")) < buffsize
fits_405 = status_line-fits 405 (codes "Method Not Allowed") (omega arith) (omega arith)

fits_505 : length (status_line 505 (codes "HTTP Version Not Supported")) < buffsize
fits_505 = status_line-fits 505 (codes "HTTP Version Not Supported") (omega arith) (omega arith)

-- The first two tests of `do_call`, the second of which it makes twice.
branches :
    (c : Client) (w : World) (get unversioned : Bool) (other bad : ℕ × Text)
    (x y z : Cmd (Unit {0}))
    → IsReply c w (some other) (x w)
    → IsReply c w (some bad) (y w)
    → IsReply c w
        (if not get then some other else if unversioned then some bad else none)
        ((if not get then x else if unversioned || unversioned then y else z) w)
branches c w false b other bad x y z h k = h
branches c w true true other bad x y z h k = k
branches c w true false other bad x y z h k = tt

module _ (total_of : Cmd ℕ) (c : Client) (w : World) where
  answer-IsReply : (q : ReqLine) → IsReply c w (line_refusal q) (answer total_of c q w)
  unfolding answer
  answer-IsReply q =
      branches c w (is_get q.method) (is_minus_one q.version.major)
        (405, codes "Method Not Allowed") (505, codes "HTTP Version Not Supported")
        (response write_code c.os c.fd 405 (codes "Method Not Allowed") none)
        (response write_code c.os c.fd 505 (codes "HTTP Version Not Supported") none) _
        (refl, fits_405) (refl, fits_505)

  reading-IsReply : (r : Reading) → IsReply c w (refusal r) (handle_reading total_of c r w)
  reading-IsReply (Reading.line t rest) = answer-IsReply t.req_line
  reading-IsReply (Reading.error t rest) =
      (refl, status_line-fits 400 (codes "Bad request") (omega arith) (omega arith))
  reading-IsReply Reading.overrun = tt

-- Each request that is no request line, has a method other than GET, or has a major version that is
-- read as -1 gets exactly the reply for its status, with no message, and is counted once under it;
-- then the connection is shut down for writing. The semaphore is free, and the texts of the system
-- fit.
pub do_call_pool-replied :
    (c : Client) (w : World) (k code : ℕ) (reason : Text)
    → OsFits c.os
    → w.sem ≡ suc k
    → refusal (read_request_line zeroed blank_req c.input) ≡ some (code, reason)
    → do_call_pool c w ≡ ok tt (replied c code reason w)
unfolding do_call_pool handle call
do_call_pool-replied c w k code reason fits free e =
    let (reply, short) =
      subst
        (λ o.
          IsReply c w o
            (handle_reading read_total c (read_request_line zeroed blank_req c.input) w))
        e (reading-IsReply read_total c w (read_request_line zeroed blank_req c.input)) in
    ap (λ r. and_then r (λ _. call (Call.shutdown c.fd How.shut_wr)))
      (reply ∙ reply_sent c fits w k free code reason short)
