-- ===== src/StoreBuffers/Message.antt =====
-- When `main` of atomic/test.cpp prints its message.
use os_study.Prelude.{ℕ, ◌<◌, ◌≡◌, refl, ap, arith, Bool, true, false, [], ◌↔◌, inl, inr}
use os_study.StoreBuffers.{result, Task, Round, Reach, Joined, prints}
use os_study.StoreBuffers.Buffers.{taken}
use os_study.StoreBuffers.Barrier.{Inv, at_task, reach-Inv}
use os_study.StoreBuffers.Reordered.{run_without}

module _ (s : Round) (inv : Inv s) (j : Joined s) where
  result_of :
      (i v : ℕ) → i < 2 → s.tasks i ≡ Task.finished v → s.buffers i ≡ [] → s.memory (result i) ≡ v
  result_of i v below over empty = elim (at_task s i (Task.finished v) below over inv).1 [
    | inl h ↦ cc
    | inr h ↦ h.1
  ]

  silent : prints s ≡ false
  silent =
      let x = result_of 0 (j.values 0) (omega arith) j.first j.drained.0 in
      let y = result_of 1 (j.values 1) (omega arith) j.second j.drained.1 in
      elim (inv.cross 0 1 (j.values 0) (j.values 1) (omega arith) (omega arith) refl
        (ap taken j.first) (ap taken j.second)) [
          | inl one ↦ ground (arith, x, one)
          | inr one ↦ ground (arith, y, one)
        ]

-- On an x86 processor, `main` of atomic/test.cpp can find both `x` and `y` 0 behind the two tasks, and
-- prints its message then, exactly if HAVE_BARRIER is not defined.
pub message_iff :
    (barrier : Bool)
    → ((s : Round) × Reach barrier s × Joined s × (prints s ≡ true)) ↔ (barrier ≡ false)
message_iff true = (λ (s, reach, j, e). cc (silent s (reach-Inv reach) j), λ e. cc e)
message_iff false = (λ _. refl, λ _. run_without)
