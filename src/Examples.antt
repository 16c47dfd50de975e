-- ===== src/Examples.antt =====
-- The theorems at concrete inputs.
mod Data
mod Requests
mod Replies
mod Queues
mod Semaphores
mod Ascii
mod Passing
mod Answers
mod Same
mod Pointers
mod Pools
mod Children
mod Gates
mod Mutexes
mod Barriers
