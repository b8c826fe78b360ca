-- ===== src/Dirent.antt =====
-- ext/posix/dirent.c.
pub mod Bindings
pub mod Streams
