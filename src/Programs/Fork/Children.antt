-- ===== src/Programs/Fork/Children.antt =====
-- What the processes of multi_server.c do to what they share: the parent with one `accept`, and a
-- child from its first call to its last.
use os_study.Prelude.{
  ℕ, suc, ◌≡◌, refl, true, false, some, [], ◌∷◌, ◌++◌, codes, inl, inr, Bool-cases,
}
use os_study.CLib.Buffer.{zeroed}
use os_study.Http.Types.{blank_req}
use os_study.Http.ReadLine.{read_request_line}
use os_study.Server.World.{World, ok, Call, How}
use os_study.Server.Fits.{OsFits}
use os_study.Process.Call.{Client, Attach, do_call, finish}
use os_study.Process.Stream.{lasting, received, part}
use os_study.Process.Counting.{counted}
use os_study.Process.Answer.{Answer, after, answer_of}
use os_study.Programs.Accept.{Accepted, End}
use os_study.Programs.Answers.Child.{do_call-child_answered}
use os_study.Programs.Fork.{Forked, server_loop, child}
use os_study.Programs.Fork.System.{fails}

-- It leaves what lasts, and sends nothing.
abbrev pub Quiet : World → World → Type 0
Quiet w w' = (lasting w' ≡ lasting w) × ((x : ℕ) → received x w'.calls ≡ received x w.calls)

pub server_loop-Quiet :
    (x : Accepted Forked) (w : World)
    → (e : End) × (w' : World) × (server_loop (x ∷ []) w ≡ ok e w') × Quiet w w'
unfolding server_loop received
server_loop-Quiet (Accepted.conn f) w = elim (Bool-cases f.fork_failed) [
  | inl failed ↦ (End.err_sys (codes "Fork error"), w, rw failed refl, (refl, λ x. refl))
  | inr fine ↦ (
    End.waiting,
    record w { calls = Call.close_conn f.connfd ∷ Call.fork_child f.connfd ∷ w.calls },
    rw fine refl,
    (refl, λ x. refl),
  )
]
server_loop-Quiet Accepted.eintr w = (_, w, refl, (refl, λ x. refl))
server_loop-Quiet Accepted.failed w = (_, w, refl, (refl, λ x. refl))

pub child-Quiet :
    (c : Client) (t : Attach) (w : World)
    → fails t ≡ true
    → (w' : World) × (child c t w ≡ ok tt w') × Quiet w w'
unfolding child do_call finish received
child-Quiet c t w failed = (
  record w {
    calls = Call.shutdown c.fd How.shut_rd ∷ Call.close_sem ∷ Call.close_listener ∷ w.calls;
  },
  rw failed refl,
  (refl, λ x. refl),
)

pub child-answered :
    (c : Client) (t : Attach) (w : World) (k : ℕ) (a : Answer)
    → OsFits c.os
    → fails t ≡ false
    → w.sem ≡ suc k
    → answer_of c (lasting w) (read_request_line zeroed blank_req c.input) ≡ some a
    → (w' : World) × (child c t w ≡ ok tt w')
      × (lasting w' ≡ after counted a (lasting w))
      × ((x : ℕ) → received x w'.calls ≡ received x w.calls ++ part x c.fd a.bytes)
unfolding child received
child-answered c t w k a fits attached free e =
    do_call-child_answered c t (record w { calls = Call.close_listener ∷ w.calls }) k a fits
      attached free e
