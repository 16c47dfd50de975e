-- ===== src/Examples/Mutexes.antt =====
-- mutex.cpp where its first thread has printed.
use os_study.Prelude.{◌+◌, ◌*◌, ◌≤◌, ◌≡◌, refl, arith, ◌⊎◌, inl, length}
use os_study.Protocol.Family.{sum_below}
use os_study.RecursiveMutex.{Run, Step}
use os_study.RecursiveMutex.Count.{countdown, past}
use os_study.RecursiveMutex.Printed.{reach-counts_up}
use os_study.RecursiveMutex.Ending.{Steps, reached, steps-end}

first_printed : (s : Run) × Steps 5 s
first_printed = (
  _,
  Steps.next
      (Steps.next
        (Steps.next
          (Steps.next (Steps.next Steps.begin (Step.create (omega arith) (omega arith)))
            (Step.lock_once 0 (omega arith) refl (inl refl)))
          (Step.load 0 (omega arith) refl))
        (Step.store 0 0 (omega arith) refl))
      (Step.print 0 (omega arith) refl),
)

reach-counts_up_example :
    (first_printed.0.printed ≡ countdown (length first_printed.0.printed))
    × (first_printed.0.global_val
        ≡ sum_below past 3 first_printed.0.threads + 3 * first_printed.0.round)
reach-counts_up_example = reach-counts_up (reached first_printed.1)

steps-end_example :
    (5 ≤ 335)
    × (((s' : Run) × Step first_printed.0 s')
        ⊎ ((first_printed.0.round ≡ 11)
            × (first_printed.0.printed ≡ countdown 33)
            × (first_printed.0.mtx.depth ≡ 0)))
steps-end_example = steps-end first_printed.1
