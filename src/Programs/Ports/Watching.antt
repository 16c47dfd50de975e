-- ===== src/Programs/Ports/Watching.antt =====
-- The sockets that multi_server_thread_Listening_on_multiple_ports.c opens and watches.
use os_study.Prelude.{
  ℕ, ◌≡◌, refl, arith, true, false, Option, none, some, List, [], ◌∷◌, subst, ◌++◌, ◌≢◌, ◌∙◌,
  Bool-cases, inl, inr,
}
use os_study.Queue.{null}
use os_study.Queue.Chain.{Cells, IsQueue}
use os_study.Queue.Calls.{queue_put_lem}
use os_study.Programs.Ports.{
  FdSet, Pass, Taken, fd_isset, fd_set, is_negative, minus_one, serve_ready, visit, pass_over,
  queue_put,
}

-- Membership in a set that only grows.
fd_isset-fd_set : (x y : ℕ) (fds : FdSet) → fd_isset x fds ≡ true → fd_isset x (fd_set y fds) ≡ true
unfolding fd_set
fd_isset-fd_set x y fds h = elim (Bool-cases (fd_isset y fds)) [
  | inl e ↦ rw e h
  | inr e ↦ rw e (ground (arith, h))
]

fd_isset-fd_set_self : (x : ℕ) (fds : FdSet) → fd_isset x (fd_set x fds) ≡ true
unfolding fd_set
fd_isset-fd_set_self x fds = elim (Bool-cases (fd_isset x fds)) [
  | inl e ↦ rw e e
  | inr e ↦ rw e (ground arith)
]

-- A pass that makes no bad access leaves `x` in `readfds`.
abbrev Watched : ℕ → Option Pass → Type 0
Watched x none = Unit
Watched x (some p) = fd_isset x p.readfds ≡ true

queued :
    (x sock mq fd : ℕ) (p : Pass)
    → fd_isset x (fd_set sock p.readfds) ≡ true
    → (o : _) → queue_put mq fd p.state ≡ o
    → Watched x (elim o [
      | none ↦ none
      | some s ↦ some (record { readfds = fd_set sock p.readfds; state = s })
    ])
queued x sock mq fd p h none e = tt
queued x sock mq fd p h (some s) e = h

Watched-serve_ready :
    (x sock : ℕ) (taken : Taken) (p : Pass)
    → fd_isset x p.readfds ≡ true
    → Watched x (serve_ready sock taken p)
Watched-serve_ready x sock (Taken.conn mq fd) p h =
    queued x sock mq fd p (fd_isset-fd_set x sock p.readfds h) (queue_put mq fd p.state) refl
Watched-serve_ready x sock Taken.eintr p h = h
Watched-serve_ready x sock (Taken.failed mq) p h =
    queued x sock mq minus_one p (fd_isset-fd_set x sock p.readfds h)
      (queue_put mq minus_one p.state) refl

-- A visit keeps what is watched, and watches its own socket.
Watched-visit :
    (x sock : ℕ) (taken : Taken) (p : Pass)
    → fd_isset x p.readfds ≡ true
    → Watched x (visit sock taken p)
unfolding visit
Watched-visit x sock taken p h = elim (Bool-cases (is_negative sock)) [
  | inl e ↦ rw e h
  | inr e ↦ elim (Bool-cases (fd_isset sock p.readfds)) [
    | inl f ↦ rw (e, f) (Watched-serve_ready x sock taken p h)
    | inr f ↦ rw (e, f) (ground (arith, h))
  ]
]

Watched-visit_self :
    (sock : ℕ) (taken : Taken) (p : Pass)
    → is_negative sock ≡ false
    → Watched sock (visit sock taken p)
unfolding visit
Watched-visit_self sock taken p e = elim (Bool-cases (fd_isset sock p.readfds)) [
  | inl f ↦ rw (e, f) (Watched-serve_ready sock sock taken p f)
  | inr f ↦ rw (e, f) (ground arith)
]

-- A pass goes on from a visit.
Watched-next :
    (x : ℕ) (f : Pass → Option Pass)
    → ((p : Pass) → fd_isset x p.readfds ≡ true → Watched x (f p))
    → (o : Option Pass) → Watched x o
    → Watched x (elim o [ none ↦ none | some p ↦ f p ])
Watched-next x f k none h = tt
Watched-next x f k (some p) h = k p h

Watched-any :
    (x : ℕ) (f : Pass → Option Pass)
    → ((p : Pass) → Watched x (f p))
    → (o : Option Pass) → Watched x (elim o [ none ↦ none | some p ↦ f p ])
Watched-any x f k none = tt
Watched-any x f k (some p) = k p

Watched-pass_over :
    (x : ℕ) (visits : List (ℕ × Taken)) (p : Pass)
    → fd_isset x p.readfds ≡ true
    → Watched x (pass_over visits p)
unfolding pass_over
Watched-pass_over x [] p h = h
Watched-pass_over x ((sock, taken) ∷ rest) p h =
    Watched-next x (pass_over rest) (Watched-pass_over x rest) (visit sock taken p)
      (Watched-visit x sock taken p h)

Watched-pass_over_mem :
    (before after : List (ℕ × Taken)) (sock : ℕ) (taken : Taken) (p : Pass)
    → is_negative sock ≡ false
    → Watched sock (pass_over (before ++ (sock, taken) ∷ after) p)
unfolding pass_over
Watched-pass_over_mem [] after sock taken p e =
    Watched-next sock (pass_over after) (Watched-pass_over sock after) (visit sock taken p)
      (Watched-visit_self sock taken p e)
Watched-pass_over_mem ((s, t) ∷ before) after sock taken p e =
    Watched-any sock (pass_over (before ++ (sock, taken) ∷ after))
      (λ q. Watched-pass_over_mem before after sock taken q e) (visit s t p)

-- After a pass of `start_server` over `servSocks`, `readfds` has every socket of it again, whatever
-- `select` left there and whatever `accept` did on each: no listening socket is forgotten.
pub pass_over-watched :
    (before after : List (ℕ × Taken)) (sock : ℕ) (taken : Taken) (p p' : Pass)
    → is_negative sock ≡ false
    → pass_over (before ++ (sock, taken) ∷ after) p ≡ some p'
    → fd_isset sock p'.readfds ≡ true
pass_over-watched before after sock taken p p' e done =
    subst (Watched sock) done (Watched-pass_over_mem before after sock taken p e)

failed_step :
    (sock mq : ℕ) (p : Pass) (s : _)
    → queue_put mq minus_one p.state ≡ some s
    → serve_ready sock (Taken.failed mq) p
      ≡ some (record { readfds = fd_set sock p.readfds; state = s })
failed_step sock mq p s done = rw (serve_ready, done) refl

visit_ready :
    (sock : ℕ) (taken : Taken) (p : Pass)
    → is_negative sock ≡ false
    → fd_isset sock p.readfds ≡ true
    → visit sock taken p ≡ serve_ready sock taken p
unfolding visit
visit_ready sock taken p e f = rw (e, f) refl

-- After an `accept` that fails with anything but EINTR, the queue has the descriptor -1, which is
-- no connection, behind those that wait.
pub visit-failed :
    (sock mq : ℕ) (p : Pass) (cells : Cells)
    → is_negative sock ≡ false
    → fd_isset sock p.readfds ≡ true
    → IsQueue p.state cells
    → mq ≢ null
    → p.state.heap mq ≡ none
    → (p' : Pass) × (visit sock (Taken.failed mq) p ≡ some p')
      × IsQueue p'.state (cells ++ (mq, minus_one) ∷ [])
visit-failed sock mq p cells e f is ne free =
    let (s, done, is') = queue_put_lem p.state cells mq minus_one is ne free in
    (
      record { readfds = fd_set sock p.readfds; state = s },
      visit_ready sock (Taken.failed mq) p e f ∙ failed_step sock mq p s done,
      is',
    )
