-- ===== src/Utils.antt =====
-- utils/: what the other parts of the program build on.
pub mod Endian
pub mod Utf
pub mod Sort
mod Tests
