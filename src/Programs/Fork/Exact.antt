-- ===== src/Programs/Fork/Exact.antt =====
-- The invariant of multi_server.c as a whole: the state is what the events make it.
use mathlib.Core.List.{Perm, perm_middle}
use mathlib.Core.List.Perm
use os_study.Prelude.{
  ℕ, suc, ◌+◌, ◌≡◌, refl, sym, ap, ap₂, subst, ◌∙◌, arith, Bool, true, false, some, List, [], ◌∷◌,
  ◌++◌, Bool-cases, inl, inr, Option-cases,
}
use os_study.CLib.Buffer.{zeroed}
use os_study.Http.Types.{blank_req}
use os_study.Http.ReadLine.{read_request_line}
use os_study.Server.World.{Stats, World, Run, ok}
use os_study.Server.Stats.{count_code}
use os_study.Server.Fits.{OsFits}
use os_study.Process.Call.{Client, Attach}
use os_study.Process.Stream.{Lasting, lasting, received, part}
use os_study.Process.Counting.{counted}
use os_study.Process.Answer.{Answer, after, answer_of}
use os_study.Programs.Accept.{Accepted, End}
use os_study.Programs.Startup.{
  Platform, Booting, Ipc, attach, sem_open, sem_unlink, same_name, create_statistics,
}
use os_study.Programs.Fork.{Forked, handler_siguser1, child, main, server_loop}
use os_study.Programs.Fork.Children.{Quiet, server_loop-Quiet, child-Quiet, child-answered}
use os_study.Programs.Fork.Reports.{handler_siguser1-repeated}
use os_study.Programs.Fork.System.{
  Event, Servers, started, world_of, left_by, accepted_by, fails, delivered, counted_in, reports_of,
  forked_of, ended_of, signals_of, count_reports,
}

-- The invariant.
pub record Exact (s : Servers) : Type 0 where
  pub got : (x : ℕ) → received x s.calls ≡ delivered x s.events
  pub stats : s.stats ≡ counted_in s.events
  pub free : s.sem ≡ 1
  pub printed : s.printed ≡ reports_of s.events
  pub posted : s.posted + count_reports s.events ≡ signals_of s.events
  pub books : Perm (forked_of s.events) (s.pending ++ ended_of s.events)

ok_inj : {A : Type 0} {a b : A} {w v : World} → ok a w ≡ ok b v → w ≡ v
ok_inj e = cc

ok_value : {A : Type 0} {a b : A} {w v : World} → ok a w ≡ ok b v → a ≡ b
ok_value e = cc

-- A connection of those that wait is brought to its end.
Perm-ended :
    (all front back ended : List ℕ) (fd : ℕ)
    → Perm all ((front ++ fd ∷ back) ++ ended)
    → Perm all ((front ++ back) ++ fd ∷ ended)
Perm-ended all front back ended fd h = Perm.trans h (
    Perm.trans (Perm.append_right ended (perm_middle front back))
      (Perm.symm (perm_middle (front ++ back) ended)))

module _ (b : Booting) (fork_failed : Bool) (m : Ipc) where
  pub booted :
      (main Platform.other b fork_failed m).0 ≡ End.waiting
      → Exact (started (attach (main Platform.other b fork_failed m).1))
  unfolding main attach sem_open sem_unlink same_name received
  booted e = elim (Option-cases (create_statistics b)) [
    | inr (text, failed) ↦ cc
    | inl created ↦ elim (Bool-cases fork_failed) [
      | inl failed ↦ cc
      | inr fine ↦
          rw (created, fine, main)
            record {
              got = λ x. refl;
              stats = refl;
              free = refl;
              printed = refl;
              posted = refl;
              books = Perm.nil;
            }
    ]
  ]

module _ (s : Servers) (before : Exact s) where
  Quiet-Exact :
      {A : Type 0} (a b : A) (w w' : World) (r : Run A) (ending : End)
      → r ≡ ok a w
      → Quiet (world_of s) w
      → r ≡ ok b w'
      → Exact (record s { calls = w'.calls; stats = w'.stats; sem = w'.sem; ending = ending })
  Quiet-Exact a b w w' r ending ran quiet run =
      let (stays, got) = subst (Quiet (world_of s)) (ok_inj (sym ran ∙ run)) quiet in
      record {
        got = λ x. got x ∙ before.got x;
        stats = ap (λ (u : Lasting). u.stats) stays ∙ before.stats;
        free = ap (λ (u : Lasting). u.permits) stays ∙ before.free;
        printed = before.printed;
        posted = before.posted;
        books = before.books;
      }

  forked-Exact :
      (fd : ℕ) → Exact (record s { pending = fd ∷ s.pending; events = Event.forked fd ∷ s.events })
  forked-Exact fd = record {
    got = before.got;
    stats = before.stats;
    free = before.free;
    printed = before.printed;
    posted = before.posted;
    books = Perm.cons fd before.books;
  }

  ended-books :
      (front back : List ℕ) (fd : ℕ)
      → s.pending ≡ front ++ fd ∷ back
      → Perm (forked_of s.events) ((front ++ back) ++ fd ∷ ended_of s.events)
  ended-books front back fd waits =
      Perm-ended (forked_of s.events) front back (ended_of s.events) fd (
        subst (λ (l : List ℕ). Perm (forked_of s.events) (l ++ ended_of s.events)) waits
          before.books)

  pub serve-Exact :
      (front back : List ℕ) (c : Client) (t : Attach) (a : Answer) (w : World)
      → s.pending ≡ front ++ c.fd ∷ back
      → OsFits c.os
      → fails t ≡ false
      → answer_of c (lasting (world_of s)) (read_request_line zeroed blank_req c.input) ≡ some a
      → child c t (world_of s) ≡ ok tt w
      → Exact (record (left_by s w (Event.answered c.fd a)) { pending = front ++ back })
  serve-Exact front back c t a w waits fits attached e run =
      let (w', ran, stays, got) = child-answered c t (world_of s) 0 a fits attached before.free e in
      let same = ok_inj (sym ran ∙ run) in
      let (stays, got) =
        subst
          (λ (v : World).
            (lasting v ≡ after counted a (lasting (world_of s)))
            × ((x : ℕ) → received x v.calls ≡ received x s.calls ++ part x c.fd a.bytes))
          same (stays, got) in
      record {
        got = λ x. got x ∙ ap (λ u. u ++ part x c.fd a.bytes) (before.got x);
        stats = ap (λ (u : Lasting). u.stats) stays ∙ ap (count_code a.code) before.stats;
        free = ap (λ (u : Lasting). u.permits) stays ∙ before.free;
        printed = before.printed;
        posted = before.posted;
        books = ended-books front back c.fd waits;
      }

  pub refuse-Exact :
      (front back : List ℕ) (c : Client) (t : Attach) (w : World)
      → s.pending ≡ front ++ c.fd ∷ back
      → fails t ≡ true
      → child c t (world_of s) ≡ ok tt w
      → Exact (record (left_by s w (Event.refused c.fd)) { pending = front ++ back })
  refuse-Exact front back c t w waits failed run =
      let (w', ran, quiet) = child-Quiet c t (world_of s) failed in
      let kept = Quiet-Exact tt tt w' w (child c t (world_of s)) s.ending ran quiet run in
      record {
        got = kept.got;
        stats = kept.stats;
        free = kept.free;
        printed = kept.printed;
        posted = kept.posted;
        books = ended-books front back c.fd waits;
      }

  pub report-Exact :
      (n : ℕ) (printed : List ℕ) (w : World)
      → s.posted ≡ suc n
      → handler_siguser1 1 s.printed (world_of s) ≡ ok printed w
      → Exact (record (left_by s w Event.reported) { posted = n; printed = printed })
  report-Exact n printed w posted run =
      let ran = handler_siguser1-repeated 1 0 s.printed (world_of s) before.free in
      let kept = Quiet-Exact _ _ _ w _ s.ending ran (refl, λ x. refl) run in
      record {
        got = kept.got;
        stats = kept.stats;
        free = kept.free;
        printed =
            ok_value (sym run ∙ ran)
            ∙ ap₂ (λ (r : ℕ) (rs : List ℕ). r ∷ rs) (ap (λ (t : Stats). t.requests) before.stats)
                before.printed;
        posted = omega (arith, before.posted, posted);
        books = before.books;
      }

pub accept-Exact :
    (s : Servers) (x : Accepted Forked) (e : End) (w : World)
    → Exact s
    → server_loop (x ∷ []) (world_of s) ≡ ok e w
    → Exact (accepted_by s x e w)
accept-Exact s x e w before run =
    let (e', w', ran, quiet) = server_loop-Quiet x (world_of s) in
    behind x (Quiet-Exact s before e' e w' w (server_loop (x ∷ []) (world_of s)) e ran quiet run)
  where
    behind :
        (x : Accepted Forked)
        → Exact (record s { calls = w.calls; stats = w.stats; sem = w.sem; ending = e })
        → Exact (accepted_by s x e w)
    behind (Accepted.conn f) kept = elim (Bool-cases f.fork_failed) [
      | inl failed ↦ rw failed kept
      | inr fine ↦ rw fine (forked-Exact _ kept f.connfd)
    ]
    behind Accepted.eintr kept = kept
    behind Accepted.failed kept = kept
