-- ===== src/Lib.antt =====
-- luaposix: bindings of POSIX for Lua. A binding is a C function that reads its arguments from the
-- Lua stack, calls the C library or the system, and pushes results: a value, or nil with a message
-- and errno. This library models the bindings of ext/posix on the shared checks of
-- ext/include/_helpers.c, and states what makes them correct.
--
-- The parts and their files:
-- - Lua (Lua/Values, Lua/Effects, Lua/Checks): Lua values as a binding sees them, and the effects.
--   A binding is a function from its arguments and the process (errno and the rest, of any type W)
--   to an outcome and the process after: values, or a Lua error (luaL_argerror, luaL_error). What
--   happened before an error stays. The arguments are a list; a table is its list of entries in
--   the order of lua_next. Lua's own conversions, and strerror, are the record Host.
-- - Helpers (Args, Fields, Results): ext/include/_helpers.c, function for function. checkint and
--   the like are casts of a 64-bit integer, written out in Base/Integers. Helpers/Validation has
--   the rules for "a call that raises has changed nothing", Helpers/Shapes those for the types of
--   results, and Helpers/Sequences the tables with consecutive integers as keys.
-- - Memory: blocks from lua_getallocf, and a ledger of those that are out. Blocks: the functions of
--   all files that work in such a block, together.
-- - Signal: ext/posix/signal.c. Signal/Queue has the static variables, and sig_postpone as a state
--   machine; Signal/Install has Psignal, Pkill, Pkillpg and Praise with the table of Lua handlers
--   in the registry. A signal is delivered between the steps, since the handler runs with all
--   signals blocked, and sig_handle blocks them too. Signal/Handlers has the loop of sig_handle
--   with the handlers that it calls, errors included, and with what is on the Lua stack.
--   Signal/System puts them together, with the calls of Psignal.
-- - Unistd: ext/posix/unistd.c, by what the bindings work on: Ids, Descriptors, Paths, Process,
--   Getopt, and Transfer for read, write and getcwd. Unistd/Functions is the table of functions.
--   The closure that Pgetopt makes is the record of its first three upvalues.
-- - Sys.Msg: ext/posix/sys/msg.c; bytes that msgrcv writes behind its block are counted, and what
--   they do is a parameter. Sys.Socket: ext/posix/sys/socket.c; Address has the tables of
--   addresses, Options and Sockopt the socket options, Resolve and Lookup getaddrinfo, Bindings
--   the rest.
-- - Poll: ext/posix/poll.c. Time: ext/posix/time.c. Dirent: ext/posix/dirent.c. Fcntl:
--   ext/posix/fcntl.c. poll and fcntl write into a table that they are given; they return it too.
-- - Sys.Stat: ext/posix/sys/stat.c. Sys.Wait: ext/posix/sys/wait.c. Sys.Resource and Sys.Limits:
--   ext/posix/sys/resource.c. Stdlib: ext/posix/stdlib.c. Users: ext/posix/pwd.c and
--   ext/posix/grp.c. Errno: ext/posix/errno.c. SingleCalls: ext/posix/utime.c, sched.c, fnmatch.c
--   and ctype.c, whose bindings make one call.
-- - Termio: ext/posix/termio.c. Stdio: ext/posix/stdio.c; a handle of the io library is userdata
--   with a FILE pointer, and the pointers are a list in the process. Syslog: ext/posix/syslog.c; a
--   string of Lua is an object, since openlog keeps a pointer into one. Glob: ext/posix/glob.c.
--   Libgen: ext/posix/libgen.c. Sys.Statvfs, Sys.Times and Sys.Utsname: ext/posix/sys/statvfs.c,
--   time.c, times.c and utsname.c.
-- - Modules: the luaopen functions of ext/posix, with the names of all functions and constants; the
--   values of macros are a parameter (Build).
-- - RaisedErrors: the functions of three modules together, on the calls that raise an error.
-- - Posix: the Lua code of lib/posix, over the bindings. A Script returns, raises an error, or does
--   not come back, since the process has ended or runs another program (Posix/Script).
--   Posix/Processes has popen, popen_pipeline, pclose, spawn and execx of init.lua; fork comes back
--   once, and its result says in which process. Posix/Kernel states what the system promises of
--   descriptors and children; Posix/Popen, Pipelines and Pclose follow the parent, Posix/Stages and
--   Ends the children. Posix/Openpty is openpty of init.lua, and Posix/Timevals the sums, differences
--   and the order of times, whose loops have fuel. Posix/Patterns is the part of Lua's
--   patterns that Posix/Modes needs: the modes as texts of _base.lua and compat.lua, and the functions
--   that take them. Posix/LegacyTime has the times of deprecated.lua. Lua's arithmetic where an
--   operand is no integer is a parameter (Arithmetic, Floats).
-- - Tests: concrete systems, and each theorem at one input.
--
-- The system is a parameter: each component has a record of the calls that it makes (UnistdCalls,
-- SignalCalls, MsgCalls, SocketCalls, OptionCalls, ResolveCalls, PollCalls, TimeCalls, DirCalls,
-- FcntlCalls, StatCalls, WaitCalls, ResourceCalls, StdlibCalls, TemplateCalls, PasswdCalls,
-- GroupCalls, SingleCallSystem, TermioCalls, StdioCalls, SyslogCalls, GlobCalls, LibgenCalls,
-- GetoptCalls, LuaCalls, StatvfsCalls, TimesCalls, UtsnameCalls, ProcessCalls, PtyCalls), functions on the process.
-- A theorem that needs more of them names it as a hypothesis: that the kernel remembers a
-- disposition (Remembers), that the allocator keeps its ledger (Accounts), that a system call
-- leaves the ledger alone (Quiet), that streams are opened and closed (Streams, OpensAndCloses),
-- that glob and globfree take and free (TakesAndFrees), that calls of getopt give these options
-- one after the other (Gives), that a queue keeps its messages (Queues), that a speed that is set
-- again changes nothing (KeepsSpeeds), that the Lua handlers which a run calls raise no error
-- (Calm, AllReturn), that waits are not interrupted (WaitsOut), that a call of nil raises one
-- (NilFails), that descriptors and children are kept (Keeps, KeepsPty), that umask returns the
-- mask and sets it (MasksFiles).
--
-- Bounds: the loops are over lists and strings and end with them, but for the loop over readdir
-- and the one over the options of getopt, which have fuel: one more than there are names, or
-- options, is enough. So have the loops of timeradd and timersub, where two more than there are
-- whole millions of microseconds are enough; with an infinite float the code itself does not end.
-- An int has 32 bits, a long, a size_t and a lua_Integer have 64, and casts wrap around. The
-- branches are those of Linux with POSIX.1-2008, tm_gmtoff and tm_zone, Lua 5.3 or 5.4.
--
-- Not modelled: what _exit and abort do, which never come back, is a call that returns; metamethods;
-- the limits of the Lua stack and of upvalues; what luaopen does to metatables and to the registry;
-- posix.c, which has no code of its own; the copy of compat-5.2. Of lib/posix: the
-- wrappers of the module typecheck, which are another project's and may be absent; euidaccess and
-- glob of init.lua and the copying of the modules into one table; msgget and setlogmask of
-- compat.lua; the functions of deprecated.lua that rename or select results; sys.lua, util.lua and
-- _strict.lua.
pub mod Base
pub mod Lua
pub mod Helpers
pub mod Memory
pub mod Sys
pub mod Poll
pub mod Time
pub mod Dirent
pub mod Fcntl
pub mod Stdlib
pub mod Users
pub mod Errno
pub mod Termio
pub mod Stdio
pub mod Glob
pub mod Syslog
pub mod Libgen
pub mod Blocks
pub mod Modules
pub mod RaisedErrors
pub mod SingleCalls
pub mod Signal
pub mod Unistd
pub mod Posix
pub mod Tests
