-- ===== src/Tests.antt =====
-- Concrete systems, and each theorem with hypotheses at one concrete input.
pub mod Fixtures
pub mod SignalRuns
pub mod Buffers
pub mod Structs
pub mod Sockets
pub mod Files
pub mod Processes
pub mod Clocks
pub mod Terminals
pub mod Strings
pub mod HandlerRuns
mod Kernel
mod Pipelines
mod Tty
mod Times
mod Messages
