-- ===== src/Server.antt =====
-- Serving one connection: the shared state, the replies, files and directories, and the bodies of
-- the worker loops.
pub mod World
pub mod Stats
pub mod Reply
pub mod Files
pub mod Listing
pub mod Worker
pub mod Effect
pub mod Handlers
pub mod Serving
pub mod Ensures
pub mod Fits
pub mod Books
pub mod Balance
pub mod Served
