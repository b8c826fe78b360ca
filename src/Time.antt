-- ===== src/Time.antt =====
-- ext/posix/time.c.
pub mod Structs
pub mod Bindings
pub mod RoundTrip
pub mod Calls
