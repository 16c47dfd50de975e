-- ===== src/Process/Answer/Stopping.antt =====
-- The functions that stop a script send nothing, and leave `need_stop_script` as it is.
use os_study.Prelude.{ℕ, refl, Bool, true, false, List, [], ◌∷◌, if◌then◌else◌}
use os_study.Server.World.{Text, Call, Signal, Cmd}
use os_study.Process.Bash.{
  Wait, Script, LoopEnd, handle_sigalrm, if_alarmed, is_late, kill_if_late, wait_group,
  reset_alarm_count, stop_scirpt_timeout, need_stop, after_loop,
}
use os_study.Process.Stream.{unsent, Lasting, received, Sends, Sends-pure, Sends-bind, Sends-silent}

module _ (fd : ℕ) where
  Sends-if :
      {A : Type 0} (s s' : Lasting) (b : Text) (t : Bool) {m n : Cmd A}
      → Sends fd s s' b m
      → Sends fd s s' b n
      → Sends fd s s' b (if t then m else n)
  Sends-if s s' b true h k = h
  Sends-if s s' b false h k = k

  module _ (s : Lasting) where
    -- What touches `alarm_count` alone.
    Sends-alarm :
        Sends fd s s [] handle_sigalrm
        × Sends fd s s [] reset_alarm_count
        × Sends fd s s [] is_late
        × Sends fd s s [] need_stop
    unfolding handle_sigalrm reset_alarm_count is_late need_stop
    Sends-alarm = (
      record { at = λ w h. (h, unsent fd w.calls) },
      record { at = λ w h. (h, unsent fd w.calls) },
      record { at = λ w h. (h, unsent fd w.calls) },
      record { at = λ w h. (h, unsent fd w.calls) },
    )

    Sends-kill_if_late : (pid : ℕ) → Sends fd s s [] (kill_if_late pid)
    unfolding kill_if_late received
    Sends-kill_if_late pid = Sends-bind fd s s s _ _ _ _ Sends-alarm.2 λ late.
        Sends-if s s [] late
          (Sends-silent fd s (Call.kill_group pid Signal.sigkill) λ x calls. refl)
          (Sends-pure fd s tt)

    Sends-wait_group : (pid : ℕ) (ws : List Wait) → Sends fd s s [] (wait_group pid ws)
    unfolding wait_group if_alarmed
    Sends-wait_group pid [] = Sends-pure fd s tt
    Sends-wait_group pid (w ∷ ws) =
        Sends-bind fd s s s _ _ _ _ (Sends-if s s [] w.alarmed Sends-alarm.0 (Sends-pure fd s tt))
          λ _.
            Sends-if s s [] w.echild (Sends-pure fd s tt)
              (Sends-bind fd s s s _ _ _ _ (Sends-kill_if_late pid) λ _. Sends-wait_group pid ws)

    Sends-stop : (pid : ℕ) (ws : List Wait) → Sends fd s s [] (stop_scirpt_timeout pid ws)
    unfolding stop_scirpt_timeout received
    Sends-stop pid ws = Sends-bind fd s s s _ _ _ _ Sends-alarm.1 λ _.
        Sends-bind fd s s s _ _ _ _
          (Sends-silent fd s (Call.kill_group pid Signal.sigterm) λ x calls. refl)
          λ _.
            Sends-bind fd s s s _ _ _ _ (Sends-silent fd s (Call.set_alarm 5) λ x calls. refl)
              λ _. Sends-wait_group pid ws

    pub Sends-after_loop : (c : Script) (e : LoopEnd) → Sends fd s s [] (after_loop fd c e)
    Sends-after_loop c LoopEnd.gone = Sends-pure fd s tt
    Sends-after_loop c LoopEnd.failed = Sends-stop c.pid c.waits
    Sends-after_loop c LoopEnd.passed =
        Sends-bind fd s s s _ _ _ _ Sends-alarm.3
          λ stop. Sends-if s s [] stop (Sends-stop c.pid c.waits) (Sends-pure fd s tt)
