-- ===== src/Fcntl.antt =====
-- ext/posix/fcntl.c.
pub mod Bindings
pub mod Locks
