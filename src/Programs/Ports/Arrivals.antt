-- ===== src/Programs/Ports/Arrivals.antt =====
-- What a pass of `start_server` over its sockets puts into the queue.
use os_study.Prelude.{
  ℕ, ◌≡◌, ◌≢◌, refl, sym, subst, ◌∙◌, Bool, true, false, not, ◌||◌, none, some, List, [], ◌∷◌, ◌++◌,
  append_assoc, append-nil, ◌==◌, if◌then◌else◌, codes, Bool-cases, inl, inr, ==_iff, ==_self,
  Option,
}
use os_study.Queue.{null, State, queue_put}
use os_study.Queue.Chain.{Cells, IsQueue}
use os_study.Queue.Calls.{queue_put_lem}
use os_study.Programs.Accept.{End}
use os_study.Programs.Ports.{
  FdSet, Pass, Taken, Round, fd_isset, fd_set, is_negative, minus_one, serve_ready, visit,
  pass_over,
}
use os_study.Programs.Ports.Sets.{fd_set-isset}

-- What an `accept` puts into the queue.
abbrev pub queued : Taken → Cells
queued (Taken.conn mq connfd) = (mq, connfd) ∷ []
queued Taken.eintr = []
queued (Taken.failed mq) = (mq, minus_one) ∷ []

-- What a pass over `servSocks` puts there, where `select` finds `ready`.
abbrev pub came : FdSet → ℕ → Taken → Cells
came ready sock taken =
    if is_negative sock then [] else if fd_isset sock ready then queued taken else []

abbrev pub came_by : FdSet → List (ℕ × Taken) → Cells
came_by ready [] = []
came_by ready ((sock, taken) ∷ rest) = came ready sock taken ++ came_by ready rest

-- What all rounds put there, and how they end.
abbrev pub came_in : List Round → Cells
came_in [] = []
came_in (Round.select_failed ∷ rounds) = []
came_in (Round.selected ready visits ∷ rounds) = came_by ready visits ++ came_in rounds

abbrev pub last_of : List Round → End
last_of [] = End.waiting
last_of (Round.select_failed ∷ rounds) = End.err_sys (codes "select on multiple sockets")
last_of (Round.selected ready visits ∷ rounds) = last_of rounds

abbrev pub socks_of : List (ℕ × Taken) → List ℕ
socks_of [] = []
socks_of ((sock, taken) ∷ rest) = sock ∷ socks_of rest

-- Each pass is over `servSocks`.
abbrev pub Over : List ℕ → List Round → Type 0
Over servSocks [] = Unit
Over servSocks (Round.select_failed ∷ rounds) = Unit
Over servSocks (Round.selected ready visits ∷ rounds) =
    (socks_of visits ≡ servSocks) × Over servSocks rounds

-- No descriptor stands twice; -1 may.
abbrev pub Distinct : List ℕ → Type 0
Distinct [] = Unit
Distinct (x ∷ xs) = ((is_negative x || not (fd_isset x xs)) ≡ true) × Distinct xs

-- Each `calloc` returns an address that is not in use then.
abbrev pub Allocated : Cells → State → Type 0
Allocated [] s = Unit
Allocated ((mq, sock) ∷ cells) s =
    (mq ≢ null)
    × (s.heap mq ≡ none)
    × ((s' : State) → queue_put mq sock s ≡ some s' → Allocated cells s')

-- A step that puts `news` behind `cells`, with `more` to come, and may watch `sock` again.
abbrev Takes : Pass → ℕ → Cells → Cells → Cells → Option Pass → Type 0
Takes p sock cells news more o =
    (p' : Pass) × (o ≡ some p')
    × IsQueue p'.state (cells ++ news)
    × Allocated more p'.state
    × ((x : ℕ) → (x == sock) ≡ false → fd_isset x p'.readfds ≡ fd_isset x p.readfds)

module _ (p : Pass) (sock : ℕ) (cells more : Cells) (is : IsQueue p.state cells) where
  nothing_came : Allocated more p.state → Takes p sock cells [] more (some p)
  nothing_came fresh =
      (p, refl, subst (IsQueue p.state) (sym (append-nil cells)) is, fresh, λ x e. refl)

  others : (x : ℕ) → (x == sock) ≡ false → fd_isset x (fd_set sock p.readfds) ≡ fd_isset x p.readfds
  others x e = rw (fd_set-isset x sock p.readfds, e) refl

  watched_again :
      Allocated more p.state
      → Takes p sock cells [] more (some (record p { readfds = sock ∷ p.readfds }))
  watched_again fresh = (
    record p { readfds = sock ∷ p.readfds },
    refl,
    subst (IsQueue p.state) (sym (append-nil cells)) is,
    fresh,
    λ x e. rw e refl,
  )

  serve_ready-Takes :
      (taken : Taken)
      → Allocated (queued taken ++ more) p.state
      → Takes p sock cells (queued taken) more (serve_ready sock taken p)
  serve_ready-Takes (Taken.conn mq connfd) fresh =
      let (s, put, is') = queue_put_lem p.state cells mq connfd is fresh.0 fresh.1 in
      (
        record { readfds = fd_set sock p.readfds; state = s },
        rw (serve_ready, put) refl,
        is',
        fresh.2 s put,
        others,
      )
  serve_ready-Takes Taken.eintr fresh = nothing_came fresh
  serve_ready-Takes (Taken.failed mq) fresh =
      let (s, put, is') = queue_put_lem p.state cells mq minus_one is fresh.0 fresh.1 in
      (
        record { readfds = fd_set sock p.readfds; state = s },
        rw (serve_ready, put) refl,
        is',
        fresh.2 s put,
        others,
      )

  -- `select` has left in `readfds` what is ready.
  visit-Takes :
      (ready : FdSet) (taken : Taken)
      → (is_negative sock ≡ false → fd_isset sock p.readfds ≡ fd_isset sock ready)
      → Allocated (came ready sock taken ++ more) p.state
      → Takes p sock cells (came ready sock taken) more (visit sock taken p)
  unfolding visit
  visit-Takes ready taken sees = elim (Bool-cases (is_negative sock)) [
    | inl e ↦ rw e nothing_came
    | inr e ↦ elim (Bool-cases (fd_isset sock ready)) [
      | inl f ↦ rw (e, sees e, f) (serve_ready-Takes taken)
      | inr f ↦ rw (e, sees e, f) watched_again
    ]
  ]

-- `readfds` is what `select` has left of the sockets that are still to be visited.
abbrev pub Sees : FdSet → List ℕ → FdSet → Type 0
Sees ready socks fds =
    (x : ℕ) → fd_isset x socks ≡ true → is_negative x ≡ false → fd_isset x fds ≡ fd_isset x ready

twice : (a b : Bool) → (a || not b) ≡ true → b ≡ true → a ≡ false → ⊥
twice true b o h e = cc e
twice false true o h e = cc o
twice false false o h e = cc h

pub pass_over-takes :
    (ready : FdSet) (visits : List (ℕ × Taken)) (p : Pass) (cells more : Cells)
    → Distinct (socks_of visits)
    → IsQueue p.state cells
    → Sees ready (socks_of visits) p.readfds
    → Allocated (came_by ready visits ++ more) p.state
    → (p' : Pass) × (pass_over visits p ≡ some p')
      × IsQueue p'.state (cells ++ came_by ready visits)
      × Allocated more p'.state
unfolding pass_over
pass_over-takes ready [] p cells more distinct is sees fresh =
    (p, refl, subst (IsQueue p.state) (sym (append-nil cells)) is, fresh)
pass_over-takes ready ((sock, taken) ∷ rest) p cells more distinct is sees fresh =
    let news = came ready sock taken in
    let later = came_by ready rest in
    let (p1, visited, is1, fresh1, same) =
      visit-Takes p sock cells (later ++ more) is ready taken (sees sock (rw (==_self sock) refl))
        (subst (λ l. Allocated l p.state) (append_assoc news later more) fresh) in
    let (p2, passed, is2, fresh2) =
      pass_over-takes ready rest p1 (cells ++ news) more distinct.1 is1
        (λ x h e.
          let ne = apart x sock (socks_of rest) h distinct.0 e in
          same x ne ∙ sees x (rw (ne, h) refl) e)
        fresh1 in
    (
      p2,
      rw (pass_over, visited) passed,
      subst (IsQueue p2.state) (append_assoc cells news later) is2,
      fresh2,
    )
  where
    apart :
        (x sock : ℕ) (socks : List ℕ)
        → fd_isset x socks ≡ true
        → (is_negative sock || not (fd_isset sock socks)) ≡ true
        → is_negative x ≡ false
        → (x == sock) ≡ false
    apart x sock socks h out real = elim (Bool-cases (x == sock)) [
      | inl e ↦
          let at = (==_iff x sock).0 e in
          absurd (
            twice (is_negative sock) (fd_isset sock socks) out
              (subst (λ z. fd_isset z socks ≡ true) at h)
              (subst (λ z. is_negative z ≡ false) at real))
      | inr e ↦ e
    ]
