-- ===== src/Sys.antt =====
-- ext/posix/sys.
pub mod Msg
pub mod Socket
pub mod Resource
pub mod Limits
pub mod Wait
pub mod Stat
pub mod Statvfs
pub mod Utsname
pub mod Times
