-- ===== src/Programs/Answers.antt =====
-- The answers of the programs whose clients run no script, or run one in a process of their own.
pub mod Threads
pub mod Child
pub mod Same
