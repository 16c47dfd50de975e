-- ===== src/Process/Answer/Scripts.antt =====
-- `handle_bash` sends what the script is heard to write.
use os_study.Prelude.{
  ℕ, suc, ◌≡◌, refl, ap, ◌∙◌, subst, arith, Bool, true, false, not, ◌==◌, Option, none, some, List,
  [], ◌∷◌, ◌++◌, append-nil, codes, if◌then◌else◌,
}
use os_study.Server.World.{
  Text, Run, ok, blocked, fault, and_then, Call, Cmd, pure, ◌>>=◌, ◌>>◌, call, send_text,
  ReadResult, Os,
}
use os_study.Server.Reply.{crlf, status_line}
use os_study.Server.Fits.{OsFits, status_line-fits}
use os_study.Process.Bash.{
  Round, Script, LoopEnd, send_or_stop, round_body, read_script, run_output, after_status,
  run_script, pipe_read_v2, handle_bash,
}
use os_study.Process.Stream.{
  unsent, Lasting, received, Sent, Sends, Sends-pure, Sends-bind, Sends-send, Sends-text,
  Sends-silent,
}
use os_study.Process.Counting.{counted, with_post}
use os_study.Process.Answer.{Answer, read_more, heard, all_stay, stays, script}
use os_study.Process.Answer.Gives.{Gives, Obeys}
use os_study.Process.Answer.Handlers.{response-Sends}
use os_study.Process.Answer.Stopping.{Sends-after_loop}

module _ (fd : ℕ) where
  -- The flag behind the loop.
  abbrev left : Bool → Lasting → Lasting
  left stops s = record s { flag = if stops then 1 else s.flag }

  module _ (c : Script) where
    stopped_at_once :
        (s : Lasting) (r : Round) (rs : List Round) (alarmed : Bool)
        → r.alarmed ≡ alarmed
        → (if alarmed then true else not (s.flag == 0)) ≡ true
        → Sends fd s (left alarmed s) [] (read_script fd c (r ∷ rs))
    unfolding read_script
    stopped_at_once s r rs true a stop = record {
      at = λ w h. rw a (ap (λ (t : Lasting). record t { flag = 1 }) h, unsent fd w.calls);
    }
    stopped_at_once s r rs false a stop = record {
      at = λ w h. rw (a, ap (λ (t : Lasting). not (t.flag == 0)) h ∙ stop) (h, unsent fd w.calls);
    }

    read_on :
        (s s' : Lasting) (b : Text) (r : Round) (rs : List Round)
        → r.alarmed ≡ false
        → not (s.flag == 0) ≡ false
        → r.epipe ≡ false
        → Sends fd s s' b (round_body fd c r.result false (read_script fd c rs))
        → Sends fd s s' b (read_script fd c (r ∷ rs))
    unfolding read_script
    read_on s s' b r rs a stop stay g = record {
      at = λ w h. rw (a, ap (λ (t : Lasting). not (t.flag == 0)) h ∙ stop, stay) (g.at w h);
    }

    round_body-Sends :
        (s : Lasting) (result : ReadResult) (more : Text × Bool) (rest : Cmd LoopEnd)
        → Sends fd s (left more.1 s) more.0 rest
        → Sends fd s
            (left (read_more result more).1 s)
            (read_more result more).0
            (round_body fd c result false rest)
    unfolding send_or_stop call
    round_body-Sends s (ReadResult.chunk b bs) more rest g = record {
      at = λ w h.
          (Sends-bind fd s s (left more.1 s) (b ∷ bs) more.0 (call (Call.send fd (b ∷ bs)))
              (λ _. rest) (Sends-send fd s (b ∷ bs)) λ _. g).at
            w h;
    }
    round_body-Sends s ReadResult.eintr more rest g = g
    round_body-Sends s ReadResult.failed more rest g = Sends-pure fd s LoopEnd.failed

    at_end :
        (s : Lasting) (alarmed : Bool)
        → c.alarmed_at_end ≡ alarmed
        → Sends fd s (left alarmed s) [] (read_script fd c [])
    unfolding read_script
    at_end s true a = record {
      at = λ w h. rw a (ap (λ (t : Lasting). record t { flag = 1 }) h, unsent fd w.calls);
    }
    at_end s false a = record { at = λ w h. rw a (h, unsent fd w.calls) }

    stay_parts :
        (r : Round) (rs : List Round)
        → all_stay (r ∷ rs) ≡ true
        → (r.epipe ≡ false) × (all_stay rs ≡ true)
    stay_parts r rs h = ground arith

    -- The two tests of a round.
    tested :
        (F : Text × Bool → Type 0) (alarmed stopped : Bool) (more : Text × Bool)
        → (alarmed ≡ true → F ([], true))
        → (alarmed ≡ false → stopped ≡ true → F ([], false))
        → (alarmed ≡ false → stopped ≡ false → F more)
        → F (if alarmed then ([], true) else if stopped then ([], false) else more)
    tested F true stopped more f g h = f refl
    tested F false true more f g h = g refl refl
    tested F false false more f g h = h refl refl

    read_script-Sends :
        (s : Lasting) (stopped : Bool) (rs : List Round)
        → not (s.flag == 0) ≡ stopped
        → all_stay rs ≡ true
        → Sends fd s
            (left (heard c.alarmed_at_end stopped rs).1 s)
            (heard c.alarmed_at_end stopped rs).0
            (read_script fd c rs)
    read_script-Sends s stopped [] e stay = at_end s c.alarmed_at_end refl
    read_script-Sends s stopped (r ∷ rs) e stay =
        let (here, there) = stay_parts r rs stay in
        let more = heard c.alarmed_at_end stopped rs in
        tested (λ p. Sends fd s (left p.1 s) p.0 (read_script fd c (r ∷ rs))) r.alarmed stopped
          (read_more r.result more) (λ a. stopped_at_once s r rs true a refl)
          (λ a t. stopped_at_once s r rs false a (e ∙ t))
          λ a f.
            read_on s (left (read_more r.result more).1 s) (read_more r.result more).0 r rs a
              (e ∙ f) here
              (round_body-Sends s r.result more (read_script fd c rs)
                (read_script-Sends s stopped rs e there))

    through :
        (r : Run (Unit {0})) (f : LoopEnd → Cmd (Unit {0}))
        → and_then r (λ _. f LoopEnd.passed) ≡ and_then (and_then r (λ _. pure LoopEnd.passed)) f
    through (ok u w) f = refl
    through (blocked w) f = refl
    through fault f = refl

    Sends-stayed :
        (s s' : Lasting) (b : Text) (m : Cmd (Unit {0})) (f : LoopEnd → Cmd (Unit {0}))
        (epipe : Bool)
        → epipe ≡ false
        → Sends fd s s' b (m >> f LoopEnd.passed)
        → Sends fd s s' b (send_or_stop fd c m epipe >>= f)
    unfolding send_or_stop
    Sends-stayed s s' b m f true stay g = cc
    Sends-stayed s s' b m f false stay g = record {
      at = λ w h. subst (Sent fd s' b w) (through (m w) f) (g.at w h);
    }

  -- A script whose client stays.
  run_script-Sends :
      (s : Lasting) (k : ℕ) (c : Script)
      → s.permits ≡ suc k
      → stays c ≡ true
      → Sends fd s
          (left (heard c.alarmed_at_end (not (s.flag == 0)) c.rounds).1 (counted 200 s))
          (status_line 200 (codes "Ok")
            ++ (crlf ++ (heard c.alarmed_at_end (not (s.flag == 0)) c.rounds).0))
          (run_script fd c)
  unfolding run_script received
  run_script-Sends s k c free stay =
      let s1 = counted 200 s in
      let p = heard c.alarmed_at_end (not (s.flag == 0)) c.rounds in
      let s2 = left p.1 s1 in
      let (status, blank, rounds) = stays_parts c stay in
      let loop =
        subst (λ t. Sends fd s1 s2 t (run_output fd c LoopEnd.passed)) (append-nil p.0)
          (Sends-bind fd s1 s1 s2 _ _ _ _ (Sends-silent fd s1 (Call.set_alarm 10) λ x calls. refl)
            λ _.
              Sends-bind fd s1 s2 s2 _ _ _ _
                (read_script-Sends c s1 (not (s.flag == 0)) c.rounds refl rounds)
                λ e. Sends-after_loop fd s2 c e) in
      Sends-stayed c s s2 _ _ (after_status fd c) c.status_epipe status (
        Sends-bind fd s s s2 _ _ _ _
          (Sends-text fd s (status_line 200 (codes "Ok"))
            (status_line-fits 200 (codes "Ok") (omega arith) (omega arith)))
          λ _. Sends-bind fd s s1 s2 _ _ _ _ (with_post.counts fd 200 k s free) λ _.
            Sends-stayed c s1 s2 _ (send_text fd crlf) (run_output fd c) c.blank_epipe blank
              (Sends-bind fd s1 s1 s2 _ _ _ _ (Sends-text fd s1 crlf (omega arith)) λ _. loop))
    where
      stays_parts :
          (c : Script)
          → stays c ≡ true
          → (c.status_epipe ≡ false) × (c.blank_epipe ≡ false) × (all_stay c.rounds ≡ true)
      stays_parts c h = ground arith

Obeys-when :
    (fd : ℕ) (s : Lasting) (t : Bool) (a : Answer) (m : Cmd (Unit {0}))
    → (t ≡ true → Gives counted fd s a m)
    → Obeys counted fd s (if t then some a else none) m
Obeys-when fd s true a m h = h refl
Obeys-when fd s false a m h = tt

module _ (os : Os) (fits : OsFits os) (fd : ℕ) (s : Lasting) (k : ℕ) (free : s.permits ≡ suc k)
    (command : Text) where
  pub handle_bash-Obeys :
      (o : Option Script) → Obeys counted fd s (script s.flag o) (handle_bash os fd command o)
  unfolding handle_bash pipe_read_v2 received
  handle_bash-Obeys none =
      response-Sends with_post os fits fd s k free 500 (codes "Ok")
        (some (codes "command running error")) (omega arith) (omega arith) (omega arith)
  handle_bash-Obeys (some c) =
      Obeys-when fd s (stays c) _ (handle_bash os fd command (some c)) λ stay. record {
        sends =
            Sends-bind fd s s _ _ _ _ _
              (Sends-silent fd s (Call.spawn_bash command) λ x calls. refl)
              λ _. run_script-Sends fd s k c free stay;
      }
