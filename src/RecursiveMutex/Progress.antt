-- ===== src/RecursiveMutex/Progress.antt =====
-- The threads of mutex.cpp never wait for ever.
use os_study.Prelude.{
  ℕ, zero, suc, ◌<◌, ◌≡◌, refl, ap, ◌∙◌, arith, true, false, ◌⊎◌, inl, inr, ltb, ltb→lt, Bool-cases,
  ==_self,
}
use os_study.RecursiveMutex.{Thread, Run, nested, CanLock, Step}
use os_study.RecursiveMutex.Owner.{holds, is_absent, is_again, Owned, absent_from}

abbrev pub CanMove : Run → Type 0
CanMove s = (s' : Run) × Step s s'

-- A thread that was created and has not finished moves, where it can take the mutex.
moves_at :
    (s : Run) (i : ℕ) (t : Thread)
    → i < 3
    → s.threads i ≡ t
    → is_absent t ≡ false
    → ((nested s ≡ true) ⊎ (is_again t ≡ false))
    → CanLock i s.mtx
    → CanMove s ⊎ (t ≡ Thread.finished)
moves_at s i Thread.absent below was e twice can = cc e
moves_at s i Thread.begun below was e twice can = elim (Bool-cases (nested s)) [
  | inl last ↦ inl (_, Step.lock_again i below was last can)
  | inr early ↦ inl (_, Step.lock_once i below (rw early was) can)
]
moves_at s i Thread.again below was e twice can = elim twice [
  | inl last ↦ inl (_, Step.lock_once i below (rw last was) can)
  | inr once ↦ cc once
]
moves_at s i Thread.inside below was e twice can = inl (_, Step.load i below was)
moves_at s i (Thread.loaded v) below was e twice can = inl (_, Step.store i v below was)
moves_at s i Thread.stored below was e twice can = inl (_, Step.print i below was)
moves_at s i Thread.printed below was e twice can = inl (_, Step.unlock_once i below was)
moves_at s i Thread.outer below was e twice can = inl (_, Step.unlock_again i below was)
moves_at s i Thread.finished below was e twice can = inr refl

module _ (s : Run) (o : Owned s) where
  thread_moves :
      (i : ℕ) → i < s.created → CanLock i s.mtx → CanMove s ⊎ (s.threads i ≡ Thread.finished)
  thread_moves i made can =
      moves_at s i (s.threads i) (omega (arith, o.few, made)) refl (o.made i ∙ ground (arith, made))
        (o.twice i) can

  -- The owner of the mutex moves.
  owner_moves : (d : ℕ) → s.mtx.depth ≡ suc d → CanMove s
  owner_moves d e = elim (Bool-cases (ltb k s.created)) [
    | inr above ↦ absurd (never (ap (holds (nested s)) (absent_from s o k (ground (arith, above)))))
    | inl below ↦ elim (thread_moves k (ltb→lt k s.created below) (inr refl)) [
      | inl step ↦ step
      | inr over ↦ absurd (never (ap (holds (nested s)) over))
    ]
  ]
    where
      k : ℕ
      k = s.mtx.owner

      never : holds (nested s) (s.threads k) ≡ 0 → ⊥
      never z = omega (arith, z, rw (==_self k) at (o.held k), e)

  free_moves : s.mtx.depth ≡ 0 → s.created ≡ 3 → s.round < 11 → CanMove s
  free_moves free all early = elim (at 0 (omega arith)) [
    | inl step ↦ step
    | inr done0 ↦ elim (at 1 (omega arith)) [
      | inl step ↦ step
      | inr done1 ↦ elim (at 2 (omega arith)) [
        | inl step ↦ step
        | inr done2 ↦ (_, Step.join all (each done0 done1 done2))
      ]
    ]
  ]
    where
      at : (i : ℕ) → i < 3 → CanMove s ⊎ (s.threads i ≡ Thread.finished)
      at i h = thread_moves i (omega (arith, h, all)) (inl free)

      each :
          s.threads 0 ≡ Thread.finished
          → s.threads 1 ≡ Thread.finished
          → s.threads 2 ≡ Thread.finished
          → (i : ℕ) → i < 3
          → s.threads i ≡ Thread.finished
      each d0 d1 d2 zero h = d0
      each d0 d1 d2 (suc zero) h = d1
      each d0 d1 d2 (suc (suc zero)) h = d2
      each d0 d1 d2 (suc (suc (suc i))) h = absurd (omega (arith, h))

  pub moves : (d : ℕ) → s.mtx.depth ≡ d → CanMove s ⊎ (s.round ≡ 11)
  moves (suc d) e = inl (owner_moves d e)
  moves zero e = elim (Bool-cases (ltb s.round 11)) [
    | inr late ↦ inr (ground (arith, late, o.bound))
    | inl early ↦ inl (elim (Bool-cases (ltb s.created 3)) [
      | inl more ↦ (_, Step.create (ltb→lt s.round 11 early) (ltb→lt s.created 3 more))
      | inr full ↦ free_moves e (ground (arith, full, o.few)) (ltb→lt s.round 11 early)
    ])
  ]
