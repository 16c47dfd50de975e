-- ===== src/Process/Serving.antt =====
-- Whole requests of the programs with processes.
use os_study.Prelude.{
  ℕ, suc, ◌<◌, ◌≤◌, ◌≢◌, length, ◌≡◌, refl, arith, Bool, true, false, ◌||◌, not, Option, none, some,
  codes,
}
use os_study.Prelude.Int.{is_minus_one}
use os_study.CLib.Buffer.{zeroed}
use os_study.Http.Types.{ReqLine, blank_req, buffsize}
use os_study.Http.ReadLine.{Reading, read_request_line}
use os_study.Server.World.{World, ok, Call, How, Cmd, Text}
use os_study.Server.Stats.{write_code}
use os_study.Server.Reply.{response}
use os_study.Server.Files.{is_dir, path_of}
use os_study.Server.Worker.{is_get, is_statistics, statistics_text, load_requests, read_total}
use os_study.Server.Ensures.{Returns-ok, Ensures, Ensures-pure, Ensures-bind, Ensures-if}
use os_study.Server.Books.{Ensures-response, Ensures-ls_version_two, Ensures-req_parser}
use os_study.Process.Call.{
  Client, Attach, is_bash, command_of, statistics, answer, handle_reading, handle, do_call_pool,
  finish, do_call,
}
use os_study.Server.Balance.{InOrder}
use os_study.Process.Books.{Keeping, Ensures-handle_bash}
use os_study.Process.Permits.{Kept, Kept-Keeping}
use os_study.Server.Books.{IsClass}
use os_study.Server.Fits.{OsFits, MessageFits, statistics_text-fits}
use os_study.Http.ReadLine.Bounds.{read_request_line-ne-overrun}

module _ (P : World → Type 0) (keep : Keeping P) where
  module _ (total_of : Cmd ℕ) (total : Ensures P P total_of) (c : Client) (fits : OsFits c.os) where
    reply :
        (code : ℕ) (reason : Text) (message : Option Text)
        → IsClass code
        → length reason < 4096
        → MessageFits message
        → Ensures P P (response write_code c.os c.fd code reason message)
    reply = Ensures-response P P write_code keep.writes c.os fits c.fd

    Ensures-statistics : Ensures P P (statistics total_of c)
    unfolding statistics
    Ensures-statistics = Ensures-bind P P P _ _ total λ n.
        reply 200 (codes "Ok") (some (statistics_text n)) (omega arith) (omega arith)
          (statistics_text-fits n)

    Ensures-answer : (q : ReqLine) → Ensures P P (answer total_of c q)
    unfolding answer
    Ensures-answer q =
        let path = path_of q.req_uri in
        let command = command_of q.req_uri in
        Ensures-if P P (not (is_get q.method))
          (reply 405 (codes "Method Not Allowed") none (omega arith) (omega arith) tt)
          (Ensures-if P P (is_minus_one q.version.major || is_minus_one q.version.major)
            (reply 505 (codes "HTTP Version Not Supported") none (omega arith) (omega arith) tt)
            (Ensures-if P P (is_statistics q.req_uri) Ensures-statistics (
              Ensures-if P P (is_bash q.req_uri)
                (Ensures-handle_bash P keep c.os fits c.fd command (c.script command))
                (Ensures-if P P (is_dir c.os path)
                  (Ensures-ls_version_two P P write_code keep.writes c.os fits c.fd path)
                  (Ensures-bind P P P _ _
                    (Ensures-req_parser P P write_code keep.writes c.os fits c.fd q.req_uri)
                    λ _. Ensures-pure P tt)))))

    Ensures-handle_reading :
        (r : Reading) → r ≢ Reading.overrun → Ensures P P (handle_reading total_of c r)
    Ensures-handle_reading (Reading.line r rest) h = Ensures-answer r.req_line
    Ensures-handle_reading (Reading.error r rest) h =
        reply 400 (codes "Bad request") none (omega arith) (omega arith) tt
    Ensures-handle_reading Reading.overrun h = absurd (h refl)

    Ensures-handle : length c.input ≤ buffsize → Ensures P P (handle total_of c)
    unfolding handle
    Ensures-handle h =
        Ensures-handle_reading (read_request_line zeroed blank_req c.input)
          (read_request_line-ne-overrun zeroed blank_req c.input h)

  module _ (c : Client) (fits : OsFits c.os) (short : length c.input ≤ buffsize) where
    pub Ensures-do_call_pool : Ensures P P (do_call_pool c)
    unfolding do_call_pool
    Ensures-do_call_pool =
        Ensures-bind P P P _ _ (Ensures-handle read_total keep.total c fits short)
          λ _. keep.writes.before (Call.shutdown c.fd How.shut_wr)

    Ensures-finish : (attached : Bool) → Ensures P P (finish c attached)
    unfolding finish
    Ensures-finish attached =
        Ensures-bind P P P _ _
          (Ensures-if P P attached (keep.writes.before Call.detach_stats) (Ensures-pure P tt))
          λ _.
            Ensures-bind P P P _ _ (keep.writes.before Call.close_sem)
              λ _. keep.writes.before (Call.shutdown c.fd How.shut_rd)

    Ensures-do_call : (a : Attach) → Ensures P P (do_call c a)
    unfolding do_call
    Ensures-do_call a =
        Ensures-if P P (a.sem_failed || (a.ftok_failed || a.shmat_null)) (Ensures-finish false) (
          Ensures-bind P P P _ _ (Ensures-handle load_requests keep.requests c fits short)
            λ _. Ensures-finish true)

-- Nothing is asked of `need_stop_script`.
abbrev pub Permits : ℕ → World → Type 0
Permits k = Kept k (λ _. Unit {0})

abbrev pub Permits-Keeping : (k : ℕ) → Keeping (Permits k)
Permits-Keeping k = Kept-Keeping k (λ _. Unit {0}) tt

-- A process of the pool that finds the semaphore free serves every request of at most BUFFSIZE
-- bytes to its end, whatever the client sends and whatever its script does, where the texts of the
-- operating system fit their buffers. It leaves the semaphore with the value it had, and `requests`
-- equal to the sum of the four classes, as `int`s, where they were before.
pub do_call_pool-InOrder :
    (c : Client) (k : ℕ) (w : World)
    → OsFits c.os
    → length c.input ≤ buffsize
    → InOrder (suc k) w
    → (w' : World) × (do_call_pool c w ≡ ok tt w') × InOrder (suc k) w'
do_call_pool-InOrder c k w fits short h =
    let (a, w', e, h') = Returns-ok (Permits k) (do_call_pool c w) (
      (Ensures-do_call_pool (Permits k) (Permits-Keeping k) c fits short).at w
        (record { in_order = h; flag = tt })) in
    (w', e, h'.in_order)

-- The same of a child of multi_server.c, also where it cannot attach to the statistics.
pub do_call-InOrder :
    (c : Client) (a : Attach) (k : ℕ) (w : World)
    → OsFits c.os
    → length c.input ≤ buffsize
    → InOrder (suc k) w
    → (w' : World) × (do_call c a w ≡ ok tt w') × InOrder (suc k) w'
do_call-InOrder c a k w fits short h =
    let (u, w', e, h') = Returns-ok (Permits k) (do_call c a w) (
      (Ensures-do_call (Permits k) (Permits-Keeping k) c fits short a).at w
        (record { in_order = h; flag = tt })) in
    (w', e, h'.in_order)
