-- ===== src/Http.antt =====
-- The HTTP request line: types, the parsers of its parts, and the reader.
pub mod Types
pub mod Method
pub mod Version
pub mod ReadLine
