-- ===== src/Unistd.antt =====
-- ext/posix/unistd.c.
pub mod Calls
pub mod Ids
pub mod Descriptors
pub mod Paths
pub mod Access
pub mod Process
pub mod Exec
pub mod Getopt
pub mod Transfer
pub mod Buffers
pub mod Balance
pub mod Offsets
pub mod Functions
pub mod Validation
pub mod Shapes
