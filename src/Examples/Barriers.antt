-- ===== src/Examples/Barriers.antt =====
-- atomic/test.cpp with the barrier.
use os_study.Prelude.{◌≡◌, ◌↔◌, true, false}
use os_study.StoreBuffers.{Round, Reach, Joined, prints}
use os_study.StoreBuffers.Message.{message_iff}

message_iff_example : ((s : Round) × Reach true s × Joined s × (prints s ≡ true)) ↔ (true ≡ false)
message_iff_example = message_iff true
