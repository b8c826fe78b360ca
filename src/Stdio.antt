-- ===== src/Stdio.antt =====
-- ext/posix/stdio.c.
pub mod Bindings
pub mod Handles
