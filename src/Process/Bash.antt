-- ===== src/Process/Bash.antt =====
-- `handle_bash` of multi_server.c with the two functions that stop a script. The same text stands in
-- the programs with a pool of processes. No program sets what SIGPIPE does: a `send` that returns EPIPE
-- is that of a program started with SIGPIPE ignored; otherwise the signal has ended the process.
use os_study.Prelude.{
  ℕ, ◌+◌, Bool, not, Option, none, some, List, [], ◌∷◌, codes, ◌==◌, if◌then◌else◌,
}
use os_study.Server.World.{
  Text, ok, Call, Signal, Cmd, pure, ◌>>=◌, ◌>>◌, call, send_text, ReadResult, Os,
}
use os_study.Server.Reply.{crlf, status_line, response}
use os_study.Server.Stats.{write_code}

-- A `waitpid` that returns a child: whether `errno` is ECHILD then, and whether SIGALRM came first.
pub record Wait : Type 0 where
  pub echild : Bool
  pub alarmed : Bool

-- One round of the loop over the script's output: the read, whether SIGALRM came before the test of
-- `need_stop_script`, and whether the client is gone when the bytes are sent.
pub record Round : Type 0 where
  pub result : ReadResult
  pub alarmed : Bool
  pub epipe : Bool

-- A script as it runs: its process, what the two sends of the header meet, the rounds up to the
-- `read` that returns 0, whether SIGALRM came before the test behind that one, and the waits up to
-- the `waitpid` that returns -1.
pub record Script : Type 0 where
  pub pid : ℕ
  pub status_epipe : Bool
  pub blank_epipe : Bool
  pub rounds : List Round
  pub alarmed_at_end : Bool
  pub waits : List Wait

-- `handle_sigalrm`
unfoldable pub handle_sigalrm : Cmd (Unit {0})
handle_sigalrm w = ok tt (record w { alarm_count = w.alarm_count + 1 })

-- `handle_sigalrm_stop_scipt`
unfoldable pub handle_sigalrm_stop_scipt : Cmd (Unit {0})
handle_sigalrm_stop_scipt w = ok tt (record w { need_stop_script = 1 })

unfoldable pub if_alarmed : Bool → Cmd (Unit {0}) → Cmd (Unit {0})
if_alarmed alarmed handler = if alarmed then handler else pure tt

unfoldable pub is_late : Cmd Bool
is_late w = ok (not (w.alarm_count == 0)) w

-- `if (alarm_count != 0) kill(-script_pid, SIGKILL)`
unfoldable pub kill_if_late : ℕ → Cmd (Unit {0})
unfolding call is_late
kill_if_late pid = do
  late ← is_late
  (if late then call (Call.kill_group pid Signal.sigkill) else pure tt)

-- `while (-1 != waitpid(-script_pid, NULL, 0) && errno != ECHILD) …`
unfoldable pub wait_group : ℕ → List Wait → Cmd (Unit {0})
unfolding handle_sigalrm if_alarmed kill_if_late
wait_group pid [] = pure tt
wait_group pid (w ∷ ws) = do
  if_alarmed w.alarmed handle_sigalrm
  (if w.echild then pure tt else (do kill_if_late pid; wait_group pid ws))

unfoldable pub handle_bash_stop_child_process_group : ℕ → List Wait → Cmd (Unit {0})
unfolding call wait_group
handle_bash_stop_child_process_group pid ws = do
  call (Call.kill_group pid Signal.sigterm)
  call (Call.set_alarm 5)
  wait_group pid ws

-- `alarm_count = 0`
unfoldable pub reset_alarm_count : Cmd (Unit {0})
reset_alarm_count w = ok tt (record w { alarm_count = 0 })

unfoldable pub stop_scirpt_timeout : ℕ → List Wait → Cmd (Unit {0})
unfolding call wait_group reset_alarm_count
stop_scirpt_timeout pid ws = do
  reset_alarm_count
  call (Call.kill_group pid Signal.sigterm)
  call (Call.set_alarm 5)
  wait_group pid ws

-- How the loop over the output ends: the function returned from it, or `ret` is -1, or it is not.
pub data LoopEnd : Type 0 where
  gone failed passed : LoopEnd

unfoldable pub need_stop : Cmd Bool
need_stop w = ok (not (w.need_stop_script == 0)) w

unfoldable pub ret_of : ReadResult → LoopEnd
ret_of (ReadResult.chunk c cs) = LoopEnd.passed
ret_of ReadResult.eintr = LoopEnd.failed
ret_of ReadResult.failed = LoopEnd.failed

module _ (connfd : ℕ) (s : Script) where
  -- After a `send`: on EPIPE the script is stopped and `handle_bash` returns.
  unfoldable pub send_or_stop : Cmd (Unit {0}) → Bool → Cmd LoopEnd
  unfolding handle_bash_stop_child_process_group
  send_or_stop sending epipe = do
    sending
    (if epipe
        then (do handle_bash_stop_child_process_group s.pid s.waits; pure LoopEnd.gone)
        else pure LoopEnd.passed)

  abbrev pub round_body : ReadResult → Bool → Cmd LoopEnd → Cmd LoopEnd
  round_body (ReadResult.chunk c cs) epipe rest = do
    e ← send_or_stop (call (Call.send connfd (c ∷ cs))) epipe
    elim e [ LoopEnd.gone ↦ pure LoopEnd.gone | _ ↦ rest ]
  round_body ReadResult.eintr epipe rest = rest
  round_body ReadResult.failed epipe rest = pure LoopEnd.failed

  unfoldable pub read_script : List Round → Cmd LoopEnd
  unfolding call handle_sigalrm_stop_scipt if_alarmed need_stop ret_of send_or_stop
  read_script [] = do if_alarmed s.alarmed_at_end handle_sigalrm_stop_scipt; pure LoopEnd.passed
  read_script (r ∷ rs) = do
    if_alarmed r.alarmed handle_sigalrm_stop_scipt
    stop ← need_stop
    (if stop then pure (ret_of r.result) else round_body r.result r.epipe (read_script rs))

  -- `if (ret == -1 || need_stop_script == 1) stop_scirpt_timeout(script_pid)`
  abbrev pub after_loop : LoopEnd → Cmd (Unit {0})
  after_loop LoopEnd.gone = pure tt
  after_loop LoopEnd.failed = stop_scirpt_timeout s.pid s.waits
  after_loop LoopEnd.passed = do
    stop ← need_stop
    (if stop then stop_scirpt_timeout s.pid s.waits else pure tt)

  abbrev pub run_output : LoopEnd → Cmd (Unit {0})
  run_output LoopEnd.gone = pure tt
  run_output _ = do call (Call.set_alarm 10); e ← read_script s.rounds; after_loop e

  -- The first send decides between the stop and `write_code`.
  abbrev pub after_status : LoopEnd → Cmd (Unit {0})
  after_status LoopEnd.gone = pure tt
  after_status _ = do
    write_code 200
    e ← send_or_stop (send_text connfd crlf) s.blank_epipe
    run_output e

  unfoldable pub run_script : Cmd (Unit {0})
  unfolding call send_text stop_scirpt_timeout need_stop send_or_stop read_script write_code
  run_script = do
    e ← send_or_stop (send_text connfd (status_line 200 (codes "Ok"))) s.status_epipe
    after_status e

-- `none`: `pipe` or `fork` fails.
unfoldable pub pipe_read_v2 : Text → Option Script → Cmd (Option Script)
unfolding call
pipe_read_v2 command none = pure none
pipe_read_v2 command (some s) = do call (Call.spawn_bash command); pure (some s)

abbrev pub serve_script : Os → ℕ → Option Script → Cmd (Unit {0})
serve_script os connfd none =
    response write_code os connfd 500 (codes "Ok") (some (codes "command running error"))
serve_script os connfd (some s) = run_script connfd s

unfoldable pub handle_bash : Os → ℕ → Text → Option Script → Cmd (Unit {0})
unfolding pipe_read_v2 run_script response write_code
handle_bash os connfd command o = do fd ← pipe_read_v2 command o; serve_script os connfd fd
