-- ===== src/ConditionVariable/Progress.antt =====
-- The threads of condition_variable.cpp never wait for ever.
use os_study.Prelude.{
  ℕ, zero, suc, ◌<◌, ◌≡◌, refl, ap, ◌∙◌, arith, Bool, true, false, ◌==◌, ◌⊎◌, inl, inr, Bool-cases,
  ==_iff,
}
use os_study.Protocol.Family.{sum_below, weight-le-sum}
use os_study.ConditionVariable.{Thread, Main, Race, Step, Reach}
use os_study.ConditionVariable.Gate.{holds, sleeps, main_holds, is_behind, bit, Inv, reach-Inv}

abbrev unfinished : Thread → Bool
unfinished Thread.finished = false
unfinished _ = true

stage : (t : Thread) → (t ≡ Thread.finished) ⊎ (unfinished t ≡ true)
stage Thread.outside = inr refl
stage Thread.inside = inr refl
stage Thread.asleep = inr refl
stage Thread.awake = inr refl
stage Thread.finished = inl refl

abbrev pub AllFinished : ℕ → (ℕ → Thread) → Type 0
AllFinished n f = (i : ℕ) → i < n → f i ≡ Thread.finished

find : (n : ℕ) (f : ℕ → Thread) → AllFinished n f ⊎ ((i : ℕ) × (i < n) × (unfinished (f i) ≡ true))
find zero f = inl λ i h. absurd (omega (arith, h))
find (suc n) f = elim (find n f) [
  | inr x ↦ inr (x.0, omega (arith, x.1), x.2)
  | inl all ↦ elim (stage (f n)) [ inr e ↦ inr (n, omega arith, e) | inl e ↦ inl (last all e) ]
]
  where
    last : AllFinished n f → f n ≡ Thread.finished → AllFinished (suc n) f
    last all e i h = elim (Bool-cases (i == n)) [
      | inl at ↦ ap f ((==_iff i n).0 at) ∙ e
      | inr ne ↦ all i (ground (arith, h, ne))
    ]

stage_inside : (t : Thread) → (t ≡ Thread.inside) ⊎ (holds t ≡ 0)
stage_inside Thread.outside = inr refl
stage_inside Thread.inside = inl refl
stage_inside Thread.asleep = inr refl
stage_inside Thread.awake = inr refl
stage_inside Thread.finished = inr refl

holder :
    (n k : ℕ) (f : ℕ → Thread)
    → sum_below holds n f ≡ suc k
    → (i : ℕ) × (i < n) × (f i ≡ Thread.inside)
unfolding sum_below
holder zero k f e = absurd (omega (arith, e))
holder (suc n) k f e = elim (stage_inside (f n)) [
  | inl at ↦ (n, omega arith, at)
  | inr out ↦
      let (i, below, found) = holder n k f (omega (arith, e, out)) in
      (i, omega (arith, below), found)
]

abbrev CanMove : ℕ → Race → Type 0
CanMove n s = (s' : Race) × Step n s s'

module _ (n : ℕ) (s : Race) (v : Inv n s) where
  -- A thread that holds `mtx` waits or prints.
  inside_moves : (i : ℕ) → i < n → s.threads i ≡ Thread.inside → CanMove n s
  inside_moves i below was = elim (Bool-cases s.ready) [
    | inl lit ↦ (_, Step.print i below was lit)
    | inr closed ↦ (_, Step.wait i below was closed)
  ]

  held_moves : s.locked ≡ true → main_holds s.main ≡ 0 → CanMove n s
  held_moves taken away =
      let (i, below, was) = holder n 0 s.threads (omega (arith, v.owner, away, ap bit taken)) in
      inside_moves i below was

  -- Behind `go`, with `mtx` free.
  free_moves :
      (i : ℕ) (t : Thread)
      → i < n
      → s.threads i ≡ t
      → unfinished t ≡ true
      → s.locked ≡ false
      → s.ready ≡ true
      → CanMove n s
  free_moves i Thread.outside below was e free lit = (_, Step.lock i below was free)
  free_moves i Thread.inside below was e free lit = inside_moves i below was
  free_moves i Thread.awake below was e free lit = (_, Step.relock i below was free)
  free_moves i Thread.asleep below was e free lit =
      absurd (omega (arith, weight-le-sum sleeps n i s.threads below, v.awake lit, ap sleeps was))
  free_moves i Thread.finished below was e free lit = absurd (ground (arith, e))

  moves :
      (m : Main) → s.main ≡ m → CanMove n s ⊎ ((s.main ≡ Main.behind_go) × AllFinished n s.threads)
  moves Main.in_go at = inl (_, Step.leave_go at)
  moves Main.before_go at = elim (Bool-cases s.locked) [
    | inl taken ↦ inl (held_moves taken (ap main_holds at))
    | inr free ↦ inl (_, Step.enter_go at free)
  ]
  moves Main.behind_go at = elim (Bool-cases s.locked) [
    | inl taken ↦ inl (held_moves taken (ap main_holds at))
    | inr free ↦ elim (find n s.threads) [
      | inl all ↦ inr (at, all)
      | inr (i, below, e) ↦
          inl (free_moves i (s.threads i) below refl e free (v.gate ∙ ap is_behind at))
    ]
  ]

-- No deadlock and no lost wake-up: in every reachable state, a step is possible with no wake-up but
-- those of notify_all, or `go` is over and every thread has finished.
pub reach-moves :
    {n : ℕ} {s : Race}
    → Reach n s
    → ((s' : Race) × Step n s s') ⊎ ((s.main ≡ Main.behind_go) × AllFinished n s.threads)
reach-moves {n} {s} reach = moves n s (reach-Inv reach) s.main refl
