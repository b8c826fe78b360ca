-- ===== src/Stdlib.antt =====
-- ext/posix/stdlib.c, without abort.
pub mod Environment
pub mod Templates
pub mod Bindings
