-- ===== src/Examples/Semaphores.antt =====
-- Threads around the semaphore.
use os_study.Prelude.{ℕ, ◌%◌, ◌^◌, ◌≡◌, refl, arith, Bool, true}
use os_study.Protocol.Family.{set_at}
use os_study.Protocol.System.{Pc, Move, System, Step, Reach}
use os_study.Protocol.Safety.{mutual_exclusion, no_lost_update}

-- Thread 0 of two stands where it stored.
abbrev one_stored : System
one_stored = record {
  shared = record { sem = 0; requests = 1 };
  pc = set_at 0 Pc.stored (set_at 0 (Pc.loaded 0) (set_at 0 Pc.writer (λ _. Pc.outside)));
  stores = 1;
  left = 0;
}

one_stored-Reach : (posts : Bool) → Reach posts 2 one_stored
one_stored-Reach posts =
    Reach.later
      (Reach.later (Reach.later Reach.start (Step.move 0 (omega arith) (Move.wait_write refl)))
        (Step.move 0 (omega arith) Move.load))
      (Step.move 0 (omega arith) Move.store)

abbrev first_thread : ℕ
first_thread = 0

mutual_exclusion_example : first_thread ≡ first_thread
mutual_exclusion_example =
    mutual_exclusion (one_stored-Reach true) first_thread first_thread (omega arith) (omega arith)
      refl refl

no_lost_update_example : one_stored.shared.requests ≡ one_stored.stores % 2 ^ 32
no_lost_update_example = no_lost_update (one_stored-Reach true)
