-- ===== src/Posix.antt =====
-- lib/posix: the Lua code over the bindings.
pub mod Script
pub mod Processes
pub mod Kernel
pub mod Closing
pub mod Parent
pub mod Popen
pub mod Pipelines
pub mod Pclose
pub mod Children
pub mod Stages
pub mod Ends
pub mod LegacyTime
pub mod Patterns
pub mod Modes
pub mod Openpty
pub mod Timevals
