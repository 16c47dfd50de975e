-- ===== src/Process.antt =====
-- The programs with processes: scripts, and the `do_call` of each.
pub mod Bash
pub mod Call
pub mod Permits
pub mod Books
pub mod Serving
pub mod Refusal
pub mod Stream
pub mod Counting
pub mod Answer
