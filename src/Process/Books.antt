-- ===== src/Process/Books.antt =====
-- What each step of a request keeps, `handle_bash` keeps.
use os_study.Prelude.{ℕ, arith, Bool, Option, none, some, List, [], ◌∷◌, codes}
use os_study.Server.World.{Text, World, Run, Call, Signal, Cmd, call, ReadResult, Os}
use os_study.Server.Stats.{write_code}
use os_study.Server.Reply.{crlf, status_line}
use os_study.Server.Ensures.{Ensures, Ensures-pure, Ensures-bind, Ensures-if, Ensures-send_text}
use os_study.Server.Books.{Writes, Ensures-response}
use os_study.Server.Fits.{OsFits, status_line-fits}
use os_study.Server.Worker.{load_requests, read_total}
use os_study.Process.Bash.{
  Wait, Round, Script, LoopEnd, handle_sigalrm, handle_sigalrm_stop_scipt, if_alarmed, kill_if_late,
  is_late, wait_group, handle_bash_stop_child_process_group, reset_alarm_count, stop_scirpt_timeout,
  need_stop, ret_of, send_or_stop, round_body, read_script, pipe_read_v2, after_loop, run_output,
  after_status, run_script, handle_bash,
}

-- A predicate that each step of a request keeps.
pub record Keeping (P : World → Type 0) : Type 0 where
  pub writes : Writes P P write_code
  pub total : Ensures P P read_total
  pub requests : Ensures P P load_requests
  pub alarm : Ensures P P handle_sigalrm
  pub stop : Ensures P P handle_sigalrm_stop_scipt
  pub reset : Ensures P P reset_alarm_count

module _ (P : World → Type 0) (keep : Keeping P) where
  calls : (c : Call) → Ensures P P (call c)
  calls = keep.writes.before

  Ensures-if_alarmed :
      (t : Bool) {m : Cmd (Unit {0})} → Ensures P P m → Ensures P P (if_alarmed t m)
  unfolding if_alarmed
  Ensures-if_alarmed t h = Ensures-if P P t h (Ensures-pure P tt)

  Ensures-need_stop : Ensures P P need_stop
  unfolding need_stop
  Ensures-need_stop = record { at = λ w h. h }

  Ensures-is_late : Ensures P P is_late
  unfolding is_late
  Ensures-is_late = record { at = λ w h. h }

  Ensures-kill_if_late : (pid : ℕ) → Ensures P P (kill_if_late pid)
  unfolding kill_if_late
  Ensures-kill_if_late pid =
      Ensures-bind P P P _ _ Ensures-is_late
        λ late. Ensures-if P P late (calls (Call.kill_group pid Signal.sigkill)) (Ensures-pure P tt)

  Ensures-wait_group : (pid : ℕ) (ws : List Wait) → Ensures P P (wait_group pid ws)
  unfolding wait_group
  Ensures-wait_group pid [] = Ensures-pure P tt
  Ensures-wait_group pid (w ∷ ws) =
      Ensures-bind P P P _ _ (Ensures-if_alarmed w.alarmed keep.alarm) λ _.
        Ensures-if P P w.echild (Ensures-pure P tt)
          (Ensures-bind P P P _ _ (Ensures-kill_if_late pid) λ _. Ensures-wait_group pid ws)

  Ensures-stop :
      (pid : ℕ) (ws : List Wait) → Ensures P P (handle_bash_stop_child_process_group pid ws)
  unfolding handle_bash_stop_child_process_group
  Ensures-stop pid ws =
      Ensures-bind P P P _ _ (calls (Call.kill_group pid Signal.sigterm))
        λ _. Ensures-bind P P P _ _ (calls (Call.set_alarm 5)) λ _. Ensures-wait_group pid ws

  Ensures-stop_timeout : (pid : ℕ) (ws : List Wait) → Ensures P P (stop_scirpt_timeout pid ws)
  unfolding stop_scirpt_timeout
  Ensures-stop_timeout pid ws = Ensures-bind P P P _ _ keep.reset λ _.
      Ensures-bind P P P _ _ (calls (Call.kill_group pid Signal.sigterm))
        λ _. Ensures-bind P P P _ _ (calls (Call.set_alarm 5)) λ _. Ensures-wait_group pid ws

  module _ (connfd : ℕ) (s : Script) where
    Ensures-send_or_stop :
        (sending : Cmd (Unit {0})) (epipe : Bool)
        → Ensures P P sending
        → Ensures P P (send_or_stop connfd s sending epipe)
    unfolding send_or_stop
    Ensures-send_or_stop sending epipe h = Ensures-bind P P P _ _ h λ _.
        Ensures-if P P epipe
          (Ensures-bind P P P _ _ (Ensures-stop s.pid s.waits) λ _. Ensures-pure P LoopEnd.gone)
          (Ensures-pure P LoopEnd.passed)

    after_chunk :
        (e : LoopEnd) (rest : Cmd LoopEnd)
        → Ensures P P rest
        → Ensures P P (elim e [ LoopEnd.gone ↦ Run.ok LoopEnd.gone | _ ↦ rest ])
    after_chunk LoopEnd.gone rest h = Ensures-pure P LoopEnd.gone
    after_chunk LoopEnd.failed rest h = h
    after_chunk LoopEnd.passed rest h = h

    Ensures-round_body :
        (r : ReadResult) (epipe : Bool) (rest : Cmd LoopEnd)
        → Ensures P P rest
        → Ensures P P (round_body connfd s r epipe rest)
    Ensures-round_body (ReadResult.chunk c cs) epipe rest h =
        Ensures-bind P P P _ _ (Ensures-send_or_stop _ epipe (calls (Call.send connfd (c ∷ cs))))
          λ e. after_chunk e rest h
    Ensures-round_body ReadResult.eintr epipe rest h = h
    Ensures-round_body ReadResult.failed epipe rest h = Ensures-pure P LoopEnd.failed

    Ensures-read_script : (rs : List Round) → Ensures P P (read_script connfd s rs)
    unfolding read_script
    Ensures-read_script [] =
        Ensures-bind P P P _ _ (Ensures-if_alarmed s.alarmed_at_end keep.stop)
          λ _. Ensures-pure P LoopEnd.passed
    Ensures-read_script (r ∷ rs) =
        Ensures-bind P P P _ _ (Ensures-if_alarmed r.alarmed keep.stop) λ _.
          Ensures-bind P P P _ _ Ensures-need_stop λ stop.
            Ensures-if P P stop (Ensures-pure P (ret_of r.result))
              (Ensures-round_body r.result r.epipe _ (Ensures-read_script rs))

    Ensures-after_loop : (e : LoopEnd) → Ensures P P (after_loop connfd s e)
    Ensures-after_loop LoopEnd.gone = Ensures-pure P tt
    Ensures-after_loop LoopEnd.failed = Ensures-stop_timeout s.pid s.waits
    Ensures-after_loop LoopEnd.passed =
        Ensures-bind P P P _ _ Ensures-need_stop
          λ stop. Ensures-if P P stop (Ensures-stop_timeout s.pid s.waits) (Ensures-pure P tt)

    output :
        Ensures P P (call (Call.set_alarm 10)) → Ensures P P (run_output connfd s LoopEnd.passed)
    output h =
        Ensures-bind P P P _ _ h
          λ _. Ensures-bind P P P _ _ (Ensures-read_script s.rounds) λ e. Ensures-after_loop e

    Ensures-run_output : (e : LoopEnd) → Ensures P P (run_output connfd s e)
    Ensures-run_output LoopEnd.gone = Ensures-pure P tt
    Ensures-run_output LoopEnd.failed = output (calls (Call.set_alarm 10))
    Ensures-run_output LoopEnd.passed = output (calls (Call.set_alarm 10))

    status : Ensures P P (after_status connfd s LoopEnd.passed)
    status = Ensures-bind P P P _ _ (keep.writes.write 200 (omega arith)) λ _.
        Ensures-bind P P P _ _
          (Ensures-send_or_stop _ s.blank_epipe
            (Ensures-send_text P calls connfd crlf (omega arith)))
          λ e. Ensures-run_output e

    Ensures-after_status : (e : LoopEnd) → Ensures P P (after_status connfd s e)
    Ensures-after_status LoopEnd.gone = Ensures-pure P tt
    Ensures-after_status LoopEnd.failed = status
    Ensures-after_status LoopEnd.passed = status

    Ensures-run_script : Ensures P P (run_script connfd s)
    unfolding run_script
    Ensures-run_script =
        Ensures-bind P P P _ _
          (Ensures-send_or_stop _ s.status_epipe (
            Ensures-send_text P calls connfd (status_line 200 (codes "Ok"))
              (status_line-fits 200 (codes "Ok") (omega arith) (omega arith))))
          λ e. Ensures-after_status e

  pub Ensures-handle_bash :
      (os : Os)
      → OsFits os
      → (connfd : ℕ) (command : Text) (o : Option Script)
      → Ensures P P (handle_bash os connfd command o)
  unfolding handle_bash pipe_read_v2
  Ensures-handle_bash os fits connfd command none =
      Ensures-response P P write_code keep.writes os fits connfd 500 (codes "Ok")
        (some (codes "command running error")) (omega arith) (omega arith) (omega arith)
  Ensures-handle_bash os fits connfd command (some s) =
      Ensures-bind P P P _ _ (calls (Call.spawn_bash command)) λ _. Ensures-run_script connfd s
