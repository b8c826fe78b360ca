-- ===== src/Users.antt =====
-- ext/posix/pwd.c and ext/posix/grp.c.
pub mod Passwd
pub mod Group
