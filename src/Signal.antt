-- ===== src/Signal.antt =====
-- ext/posix/signal.c: the queue between C signal handlers and the debug hook, and Psignal.
pub mod Queue
pub mod Invariant
pub mod Handlers
pub mod EndToEnd
pub mod System
pub mod Install
pub mod Dispositions
