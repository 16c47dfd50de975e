-- ===== src/Programs/Pool/Whole.antt =====
-- What the clients of the pool receive, whichever processes serve them.
use os_study.Prelude.{
  ℕ, ◌≡◌, refl, sym, ap, subst, ◌∙◌, Bool, false, true, some, [], ◌∷◌, ◌++◌, ◌==◌, if◌then◌else◌,
  Bool-cases, inl, inr, ==_iff, Option-cases, List,
}
use os_study.Protocol.Family.{set_at}
use os_study.CLib.Buffer.{zeroed}
use os_study.Http.Types.{blank_req}
use os_study.Http.ReadLine.{read_request_line}
use os_study.Server.World.{World, ok, pure, and_then}
use os_study.Server.Stats.{count_code}
use os_study.Server.Fits.{OsFits}
use os_study.Process.Bash.{handle_sigalrm, handle_sigalrm_stop_scipt}
use os_study.Process.Call.{Client}
use os_study.Process.Stream.{Lasting, lasting, received, part}
use os_study.Process.Counting.{counted}
use os_study.Process.Answer.{Answer, after, answer_of}
use os_study.Process.Answer.Exact.{do_call_pool-answered}
use os_study.Programs.Accept.{Accepted, End}
use os_study.Programs.Startup.{
  Platform, Booting, Ipc, attach, sem_open, sem_unlink, same_name, create_statistics,
}
use os_study.Programs.Pool.{Handler, Turn, server_loop, main, create_processes}
use os_study.Programs.Pool.System.{
  Event, Pool, started, world_of, left_by, Step, Reach, delivered, counted_in, flag_of,
}

-- The state is what the events make it.
record Answered (s : Pool) : Type 0 where
  got : (i x : ℕ) → received x (s.calls i) ≡ delivered i x s.events
  stats : s.stats ≡ counted_in s.events
  free : s.sem ≡ 1
  flags : (i : ℕ) → s.flags i ≡ flag_of i s.events

-- What the loop has done for a client.
abbrev Gave : Client → Answer → World → World → Type 0
Gave c a w w' =
    (w'.sem ≡ w.sem)
    × (lasting w' ≡ after counted a (lasting w))
    × ((x : ℕ) → received x w'.calls ≡ received x w.calls ++ part x c.fd a.bytes)

world_eq : {A : Type 0} {a b : A} {w v : World} → ok a w ≡ ok b v → w ≡ v
world_eq e = cc

gave :
    (c : Client) (a : Answer) (w w' : World)
    → OsFits c.os
    → w.sem ≡ 1
    → answer_of c (lasting w) (read_request_line zeroed blank_req c.input) ≡ some a
    → server_loop (Turn.accepted (Accepted.conn c) ∷ []) w ≡ ok End.waiting w'
    → Gave c a w w'
unfolding server_loop
gave c a w w' fits free e done =
    let (v, run, sem, stays, got) = do_call_pool-answered c w 0 a fits free e in
    subst (Gave c a w) (world_eq (sym (ap (λ r. and_then r (λ _. pure End.waiting)) run) ∙ done))
      (sem, stays, got)

==-self : (i : ℕ) → (i == i) ≡ true
==-self i = (==_iff i i).1 refl

-- One process has moved, and the others are where they were.
set_one :
    {A : Type 0} (f : ℕ → A) (i j : ℕ) (a : A) (P : ℕ → A → Type 0)
    → P i a
    → ((i == j) ≡ false → P j (f j))
    → P j (set_at i a f j)
set_one f i j a P h k = elim (Bool-cases (i == j)) [
  | inl e ↦ rw e (subst (λ n. P n a) ((==_iff i j).0 e) h)
  | inr e ↦ rw e (k e)
]

module _ (b : Booting) (fails : ℕ → Bool) (handler_failed : Bool) (m : Ipc) (down : ℕ → Bool) where
  booted :
      (main Platform.other b fails handler_failed m).ending ≡ End.waiting
      → Answered (started (attach (main Platform.other b fails handler_failed m).ipc) down)
  unfolding main attach sem_open sem_unlink same_name received
  booted e = elim (Option-cases (create_statistics b)) [
    | inr (text, failed) ↦ cc
    | inl created ↦ elim (Bool-cases (create_processes 32 fails 0).1) [
      | inl failed ↦ cc
      | inr forked ↦
          rw (created, forked, main)
            record { got = λ i x. refl; stats = refl; free = refl; flags = λ i. refl }
    ]
  ]

module _ (s : Pool) (i : ℕ) (before : Answered s) where
  serve-Answered :
      (c : Client) (a : Answer) (w : World)
      → OsFits c.os
      → answer_of c (lasting (world_of s i)) (read_request_line zeroed blank_req c.input) ≡ some a
      → server_loop (Turn.accepted (Accepted.conn c) ∷ []) (world_of s i) ≡ ok End.waiting w
      → Answered (left_by s i w (Event.served i c.fd a ∷ s.events))
  serve-Answered c a w fits e run =
      let (sem, stays, got) = gave c a (world_of s i) w fits before.free e run in
      record {
        got = λ j x.
            set_one s.calls i j w.calls
              (λ j calls. received x calls ≡ delivered j x (Event.served i c.fd a ∷ s.events))
              (rw (==-self i) (got x ∙ ap (λ u. u ++ part x c.fd a.bytes) (before.got i x)))
              (λ other. rw other (before.got j x));
        stats = ap (λ (u : Lasting). u.stats) stays ∙ ap (count_code a.code) before.stats;
        free = sem ∙ before.free;
        flags = λ j.
            set_one s.flags i j w.need_stop_script
              (λ j flag. flag ≡ flag_of j (Event.served i c.fd a ∷ s.events))
              (rw (==-self i) (
                ap (λ (u : Lasting). u.flag) stays
                ∙ ap (λ flag. if a.stops then 1 else flag) (before.flags i)))
              (λ other. rw other (before.flags j));
      }

  -- A turn that sends and counts nothing.
  still :
      (w : World) (events : List Event)
      → w.calls ≡ s.calls i
      → w.stats ≡ s.stats
      → w.sem ≡ s.sem
      → ((j x : ℕ) → delivered j x events ≡ delivered j x s.events)
      → counted_in events ≡ counted_in s.events
      → w.need_stop_script ≡ flag_of i events
      → ((j : ℕ) → (i == j) ≡ false → flag_of j events ≡ flag_of j s.events)
      → Answered (left_by s i w events)
  still w events calls stats sem got counts flag flags = record {
    got = λ j x.
        set_one s.calls i j w.calls (λ j calls. received x calls ≡ delivered j x events)
          (ap (received x) calls ∙ before.got i x ∙ sym (got i x))
          (λ other. before.got j x ∙ sym (got j x));
    stats = stats ∙ before.stats ∙ sym counts;
    free = sem ∙ before.free;
    flags = λ j.
        set_one s.flags i j w.need_stop_script (λ j flag. flag ≡ flag_of j events) flag
          (λ other. before.flags j ∙ sym (flags j other));
  }

  interrupted-Answered :
      (w : World)
      → server_loop (Turn.accepted Accepted.eintr ∷ []) (world_of s i) ≡ ok End.waiting w
      → Answered (left_by s i w s.events)
  unfolding server_loop
  interrupted-Answered w run =
      subst (λ w. Answered (left_by s i w s.events)) (world_eq run)
        (still (world_of s i) s.events refl refl refl (λ j x. refl) refl (before.flags i)
          (λ j other. refl))

  fail-Answered :
      (e : End) (w : World)
      → server_loop (Turn.accepted Accepted.failed ∷ []) (world_of s i) ≡ ok e w
      → Answered (left_by s i w s.events)
  unfolding server_loop
  fail-Answered e w run =
      subst (λ w. Answered (left_by s i w s.events)) (world_eq run)
        (still (world_of s i) s.events refl refl refl (λ j x. refl) refl (before.flags i)
          (λ j other. refl))

  sigalrm-Answered :
      (h : Handler) (w : World)
      → server_loop (Turn.sigalrm h ∷ []) (world_of s i) ≡ ok End.waiting w
      → Answered (left_by s i w (Event.alarmed i h ∷ s.events))
  unfolding server_loop handle_sigalrm_stop_scipt handle_sigalrm
  sigalrm-Answered Handler.stop_script w run =
      subst (λ w. Answered (left_by s i w (Event.alarmed i Handler.stop_script ∷ s.events)))
        (world_eq run)
        (still _ (Event.alarmed i Handler.stop_script ∷ s.events) refl refl refl (λ j x. refl) refl
          (rw (==-self i) refl) (λ j other. rw other refl))
  sigalrm-Answered Handler.count w run =
      subst (λ w. Answered (left_by s i w (Event.alarmed i Handler.count ∷ s.events)))
        (world_eq run)
        (still _ (Event.alarmed i Handler.count ∷ s.events) refl refl refl (λ j x. refl) refl
          (before.flags i) (λ j other. refl))

Step-Answered : {s s' : Pool} → Step s s' → Answered s → Answered s'
Step-Answered {s} (Step.serve i c a w below up fits e run) before =
    serve-Answered s i before c a w fits e run
Step-Answered {s} (Step.interrupted i w below up run) before = interrupted-Answered s i before w run
Step-Answered {s} (Step.fail i e w below up run) before =
    let kept = fail-Answered s i before e w run in
    record { got = kept.got; stats = kept.stats; free = kept.free; flags = kept.flags }
Step-Answered {s} (Step.sigalrm i h w below up pending run) before =
    sigalrm-Answered s i before h w run

Reach-Answered : {s : Pool} → Reach s → Answered s
Reach-Answered (Reach.begin b fails handler_failed m down runs) =
    booted b fails handler_failed m down runs
Reach-Answered (Reach.next reach step) = Step-Answered step (Reach-Answered reach)

-- In every reachable state of the pool, from `main` on a platform other than Linux, whatever an
-- earlier run has left in the statistics and the semaphores, whichever processes serve which clients
-- in whatever order, whatever interrupts their `accept` or ends their loops, and wherever SIGALRM
-- comes between two requests of a process that has called `alarm`: each descriptor of each process
-- has received the bytes of the answers to its clients and no others, the statistics are those of
-- all the answers, the semaphore is free, and the `need_stop_script` of a process is 1 exactly if
-- SIGALRM has stopped a script of its own or has come between its requests with the handler that
-- stops a script. No request line overruns recv_buffer, every client stays until its answer is sent,
-- and the texts of the system fit. A request is one step, with the SIGALRMs that come while its
-- script is read.
pub reach-answered :
    {s : Pool}
    → Reach s
    → ((i x : ℕ) → received x (s.calls i) ≡ delivered i x s.events)
      × (s.stats ≡ counted_in s.events)
      × (s.sem ≡ 1)
      × ((i : ℕ) → s.flags i ≡ flag_of i s.events)
reach-answered reach =
    let answered = Reach-Answered reach in
    (answered.got, answered.stats, answered.free, answered.flags)
