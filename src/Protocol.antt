-- ===== src/Protocol.antt =====
-- Many threads or processes over the one semaphore that guards the statistics.
pub mod Family
pub mod System
pub mod Invariant
pub mod Safety
