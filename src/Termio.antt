-- ===== src/Termio.antt =====
-- ext/posix/termio.c.
pub mod Structs
pub mod Bindings
pub mod RoundTrip
