-- ===== src/Helpers.antt =====
-- ext/include/_helpers.c: argument checks, field checks and result conventions of every binding.
pub mod Args
pub mod Fields
pub mod Results
pub mod Validation
pub mod Known
pub mod Sequences
pub mod Shapes
