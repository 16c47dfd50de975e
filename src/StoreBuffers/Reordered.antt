-- ===== src/StoreBuffers/Reordered.antt =====
-- Without the barrier both tasks may load before either flag is in the memory.
use os_study.Prelude.{◌≡◌, refl, arith, true, false, [], ◌∷◌}
use os_study.StoreBuffers.{Round, Step, Reach, Joined, prints}

-- A run of both tasks, up to the message.
pub run_without : (s : Round) × Reach false s × Joined s × (prints s ≡ true)
run_without = (
  _,
  Reach.next
      (Reach.next
        (Reach.next
          (Reach.next
            (Reach.next
              (Reach.next
                (Reach.next
                  (Reach.next
                    (Reach.next
                      (Reach.next
                        (Reach.next (Reach.next Reach.begin (Step.store_flag 0 (omega arith) refl))
                          (Step.store_flag 1 (omega arith) refl))
                        (Step.mrwbarrier 0 (omega arith) refl (λ e. cc e)))
                      (Step.mrwbarrier 1 (omega arith) refl (λ e. cc e)))
                    (Step.load_flag 0 (omega arith) refl))
                  (Step.load_flag 1 (omega arith) refl))
                (Step.store_result 0 0 (omega arith) refl))
              (Step.store_result 1 0 (omega arith) refl))
            (Step.drain 0 0 1 ((2, 0) ∷ []) (omega arith) refl))
          (Step.drain 0 2 0 [] (omega arith) refl))
        (Step.drain 1 1 1 ((3, 0) ∷ []) (omega arith) refl))
      (Step.drain 1 3 0 [] (omega arith) refl),
  record { values = λ _. 0; first = refl; second = refl; drained = (refl, refl) },
  refl,
)
