-- ===== src/Stdlib.antt =====
-- The libraries that come with the interpreter, under stdlib/.
pub mod Dates
