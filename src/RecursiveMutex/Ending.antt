-- ===== src/RecursiveMutex/Ending.antt =====
-- mutex.cpp comes to its end.
use os_study.Prelude.{
  ℕ, suc, ◌+◌, ◌*◌, ◌-◌, ◌≤◌, ◌<◌, ◌≡◌, refl, ap, arith, Bool, true, false, ◌⊎◌, inl, inr,
  if◌then◌else◌,
}
use os_study.Protocol.Family.{set_at, sum_below, sum_below-set_at}
use os_study.RecursiveMutex.{Thread, Run, started, nested, Step, Reach}
use os_study.RecursiveMutex.Printed.{reach-prints_all}
use os_study.RecursiveMutex.Count.{countdown}
use os_study.RecursiveMutex.Progress.{moves}
use os_study.RecursiveMutex.Invariant.{reach-Owned}
use os_study.RecursiveMutex.Owner.{Owned, absent_from}

-- The steps that a thread has left, and those of the program.
abbrev rest : Thread → ℕ
rest Thread.absent = 9
rest Thread.begun = 8
rest Thread.again = 7
rest Thread.inside = 6
rest (Thread.loaded v) = 5
rest Thread.stored = 4
rest Thread.printed = 3
rest Thread.outer = 2
rest Thread.finished = 0

steps_left : Run → ℕ
steps_left s = sum_below rest 3 s.threads + 28 * (11 - s.round)

module _ (s : Run) (i : ℕ) (t u : Thread) (below : i < 3) (was : s.threads i ≡ t) where
  shorter :
      rest u < rest t → sum_below rest 3 (set_at i u s.threads) + 28 * (11 - s.round) < steps_left s
  unfolding steps_left
  shorter h = omega (arith, h, sum_below-set_at rest 3 i u s.threads below, ap rest was)

high : (last : Bool) → rest Thread.inside < rest (if last then Thread.again else Thread.begun)
high true = omega arith
high false = omega arith

low : (last : Bool) → rest (if last then Thread.outer else Thread.finished) < rest Thread.printed
low true = omega arith
low false = omega arith

step-shorter : {s s' : Run} → Owned s → Step s s' → steps_left s' < steps_left s
unfolding steps_left sum_below
step-shorter {s} o (Step.create more few) =
    shorter s s.created Thread.absent Thread.begun few (absent_from s o s.created (omega arith))
      (omega arith)
step-shorter {s} o (Step.lock_again i below was last can) =
    shorter s i Thread.begun Thread.again below was (omega arith)
step-shorter {s} o (Step.lock_once i below was can) =
    shorter s i _ Thread.inside below was (high (nested s))
step-shorter {s} o (Step.load i below was) =
    shorter s i Thread.inside (Thread.loaded s.global_val) below was (omega arith)
step-shorter {s} o (Step.store i v below was) =
    shorter s i (Thread.loaded v) Thread.stored below was (omega arith)
step-shorter {s} o (Step.print i below was) =
    shorter s i Thread.stored Thread.printed below was (omega arith)
step-shorter {s} o (Step.unlock_once i below was) =
    shorter s i Thread.printed _ below was (low (nested s))
step-shorter {s} o (Step.unlock_again i below was) =
    shorter s i Thread.outer Thread.finished below was (omega arith)
step-shorter {s} o (Step.join all done) =
    let none = λ (i : ℕ) (h : i < 3). ap rest (done i h) in
    omega (arith, o.bound, all, none 0 (omega arith), none 1 (omega arith), none 2 (omega arith))

-- A run of the program, with its number of steps.
pub data Steps : ℕ → Run → Type 0 where
  begin : Steps 0 started
  next : {n : ℕ} {s s' : Run} → Steps n s → Step s s' → Steps (suc n) s'

pub reached : {n : ℕ} {s : Run} → Steps n s → Reach s
reached Steps.begin = Reach.begin
reached (Steps.next steps step) = Reach.next (reached steps) step

few_steps : {n : ℕ} {s : Run} → Steps n s → n + steps_left s ≤ 335
unfolding steps_left sum_below
few_steps Steps.begin = omega arith
few_steps (Steps.next steps step) =
    omega (arith, few_steps steps, step-shorter (reach-Owned (reached steps)) step)

-- mutex.cpp ends, whatever the order of its steps: a run has at most 335 of them, and where it cannot
-- go on, `main` has ended, the numbers from 1 to 33 are printed in this order, and the mutex is free.
pub steps-end :
    {n : ℕ} {s : Run}
    → Steps n s
    → (n ≤ 335)
      × (((s' : Run) × Step s s')
          ⊎ ((s.round ≡ 11) × (s.printed ≡ countdown 33) × (s.mtx.depth ≡ 0)))
unfolding steps_left
steps-end {s = s} steps = (omega (arith, few_steps steps), ending)
  where
    ending :
        ((s' : Run) × Step s s') ⊎ ((s.round ≡ 11) × (s.printed ≡ countdown 33) × (s.mtx.depth ≡ 0))
    ending = elim (moves s (reach-Owned (reached steps)) s.mtx.depth refl) [
      | inl step ↦ inl step
      | inr over ↦ let (all, free) = reach-prints_all (reached steps) over in inr (over, all, free)
    ]
