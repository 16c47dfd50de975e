-- ===== src/Programs.antt =====
-- The eight programs of multi_server/, each with its own `write_code`, `do_call`, `server` and
-- `main`, and the text that they share.
pub mod Accept
pub mod Startup
pub mod Fork
pub mod Pool
pub mod PassFd
pub mod Threads
pub mod PreCreate
pub mod Ports
pub mod BlockingQueue
pub mod Single
pub mod Sessions
pub mod Account
pub mod Answers
