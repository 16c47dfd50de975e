-- ===== src/Programs/Account.antt =====
-- A session of the pool, as its clients see it: each gets its answer, in the light of those before.
use os_study.Prelude.{
  ℕ, suc, ◌+◌, ◌≡◌, refl, sym, ap, ◌∙◌, Option, some, List, [], ◌∷◌, ◌++◌, append_assoc, append-nil,
}
use os_study.CLib.Buffer.{zeroed}
use os_study.Http.Types.{blank_req}
use os_study.Http.ReadLine.{read_request_line}
use os_study.Server.World.{Text, World, ok, and_then}
use os_study.Server.Fits.{OsFits}
use os_study.Process.Call.{Client}
use os_study.Process.Stream.{Lasting, lasting, received, part}
use os_study.Process.Counting.{counted}
use os_study.Process.Answer.{Answer, after, answer_of}
use os_study.Process.Answer.Exact.{do_call_pool-answered}
use os_study.Process.Bash.{handle_sigalrm, handle_sigalrm_stop_scipt}
use os_study.Programs.Accept.{Accepted, End, accept_error}
use os_study.Programs.Pool.{Handler, Turn, server_loop}

-- The answer to a client, behind `s`.
abbrev pub answer_to : Client → Lasting → Option Answer
answer_to c s = answer_of c s (read_request_line zeroed blank_req c.input)

-- What SIGALRM leaves.
abbrev pub signalled : Handler → Lasting → Lasting
signalled Handler.stop_script s = record s { flag = 1 }
signalled Handler.count s = s

-- The answers to the clients of a session one after the other, from `s`.
abbrev pub AnswersTo : List Turn → List Answer → Lasting → Type 0
AnswersTo [] [] s = Unit
AnswersTo [] (a ∷ answers) s = ⊥
AnswersTo (Turn.accepted (Accepted.conn c) ∷ xs) [] s = ⊥
AnswersTo (Turn.accepted (Accepted.conn c) ∷ xs) (a ∷ answers) s =
    OsFits c.os × (answer_to c s ≡ some a) × AnswersTo xs answers (after counted a s)
AnswersTo (Turn.accepted Accepted.eintr ∷ xs) answers s = AnswersTo xs answers s
AnswersTo (Turn.accepted Accepted.failed ∷ xs) [] s = Unit
AnswersTo (Turn.accepted Accepted.failed ∷ xs) (a ∷ answers) s = ⊥
AnswersTo (Turn.sigalrm h ∷ xs) answers s = AnswersTo xs answers (signalled h s)

-- How the session ends, what it leaves, and what comes for the descriptor `x`.
abbrev pub end_of : List Turn → End
end_of [] = End.waiting
end_of (Turn.accepted Accepted.failed ∷ xs) = End.err_sys accept_error
end_of (_ ∷ xs) = end_of xs

abbrev pub left_by : List Turn → List Answer → Lasting → Lasting
left_by (Turn.accepted (Accepted.conn c) ∷ xs) (a ∷ answers) s =
    left_by xs answers (after counted a s)
left_by (Turn.accepted Accepted.eintr ∷ xs) answers s = left_by xs answers s
left_by (Turn.sigalrm h ∷ xs) answers s = left_by xs answers (signalled h s)
left_by _ answers s = s

abbrev pub delivered : ℕ → List Turn → List Answer → Text
delivered x (Turn.accepted (Accepted.conn c) ∷ xs) (a ∷ answers) =
    part x c.fd a.bytes ++ delivered x xs answers
delivered x (Turn.accepted Accepted.eintr ∷ xs) answers = delivered x xs answers
delivered x (Turn.sigalrm h ∷ xs) answers = delivered x xs answers
delivered x _ answers = []

-- A process of the pool that finds the semaphore free answers each client of its session, whatever
-- interrupts `accept` and wherever SIGALRM comes between two requests, in the light of what was
-- before: the process ends as `accept` says, the statistics and `need_stop_script` are those that
-- the answers and the signals leave one after the other, and each connection has received its own
-- bytes and no others. The texts of the system fit, no request line overruns recv_buffer, and every
-- client stays until its answer is sent.
pub server_loop-answered :
    (xs : List Turn) (answers : List Answer) (w : World) (k : ℕ)
    → w.sem ≡ suc k
    → AnswersTo xs answers (lasting w)
    → (w' : World) × (server_loop xs w ≡ ok (end_of xs) w')
      × (w'.sem ≡ w.sem)
      × (lasting w' ≡ left_by xs answers (lasting w))
      × ((x : ℕ) → received x w'.calls ≡ received x w.calls ++ delivered x xs answers)
unfolding server_loop handle_sigalrm_stop_scipt handle_sigalrm
server_loop-answered [] [] w k free h =
    (w, refl, refl, refl, λ x. sym (append-nil (received x w.calls)))
server_loop-answered [] (a ∷ answers) w k free h = absurd h
server_loop-answered (Turn.accepted (Accepted.conn c) ∷ xs) [] w k free h = absurd h
server_loop-answered (Turn.accepted Accepted.failed ∷ xs) (a ∷ answers) w k free h = absurd h
server_loop-answered (Turn.accepted Accepted.eintr ∷ xs) answers w k free h =
    server_loop-answered xs answers w k free h
server_loop-answered (Turn.sigalrm Handler.stop_script ∷ xs) answers w k free h =
    server_loop-answered xs answers (record w { need_stop_script = 1 }) k free h
server_loop-answered (Turn.sigalrm Handler.count ∷ xs) answers w k free h =
    server_loop-answered xs answers (record w { alarm_count = w.alarm_count + 1 }) k free h
server_loop-answered (Turn.accepted Accepted.failed ∷ xs) [] w k free h =
    (w, refl, refl, refl, λ x. sym (append-nil (received x w.calls)))
server_loop-answered (Turn.accepted (Accepted.conn c) ∷ xs) (a ∷ answers) w k free (fits, e, h) =
    let (w1, run, sem, stays, got) = do_call_pool-answered c w k a fits free e in
    let (w2, runs, sems, stay, gets) =
      server_loop-answered xs answers w1 k (sem ∙ free) (rw stays h) in
    (
      w2,
      ap (λ r. and_then r (λ _. server_loop xs)) run ∙ runs,
      sems ∙ sem,
      stay ∙ ap (left_by xs answers) stays,
      λ x.
          gets x
          ∙ (ap (λ t. t ++ delivered x xs answers) (got x)
              ∙ append_assoc (received x w.calls) (part x c.fd a.bytes) (delivered x xs answers)),
    )
