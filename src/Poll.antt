-- ===== src/Poll.antt =====
-- ext/posix/poll.c.
pub mod Events
pub mod Tables
pub mod Bindings
pub mod Laws
