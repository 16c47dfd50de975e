-- ===== src/Examples/Gates.antt =====
-- Ten threads of condition_variable.cpp, the third of which holds the mutex.
use os_study.Prelude.{ℕ, ◌≡◌, refl, arith, true, false, [], ◌⊎◌}
use os_study.ConditionVariable.{Thread, Main, Race, started, moved, Step, Reach}
use os_study.ConditionVariable.Printed.{finishes, reach-prints_once}
use os_study.ConditionVariable.Progress.{AllFinished, reach-moves}

abbrev one_inside : Race
one_inside = moved 3 Thread.inside true started

one_inside-Reach : Reach 10 one_inside
one_inside-Reach = Reach.next Reach.begin (Step.lock 3 (omega arith) refl refl)

reach-prints_once_example :
    ((i : ℕ) → 0 ≡ finishes (one_inside.threads i)) × (false ≡ false → one_inside.printed ≡ [])
reach-prints_once_example = reach-prints_once one_inside-Reach

reach-moves_example :
    ((s' : Race) × Step 10 one_inside s')
    ⊎ ((one_inside.main ≡ Main.behind_go) × AllFinished 10 one_inside.threads)
reach-moves_example = reach-moves one_inside-Reach
