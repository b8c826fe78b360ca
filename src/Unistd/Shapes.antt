-- ===== src/Unistd/Shapes.antt =====
-- ext/posix/unistd.c: the types of the results of each function.
pub mod Types
mod Files
mod Processes
mod Buffers
use luaposix.Base.{Bytes, Every, done, ◌▹◌}
use luaposix.Helpers.Shapes.{Returns}
use luaposix.Lua.{Args, Binding, Host}
use luaposix.Memory.{Allocator}
use luaposix.Unistd.Calls.{UnistdCalls}
use luaposix.Unistd.Functions.{posix_unistd_fns}
use luaposix.Unistd.Getopt.{GetoptCalls}
use luaposix.Unistd.Shapes.Buffers.{getcwd-Returns, getopt-Returns, read-Returns, write-Returns}
use luaposix.Unistd.Shapes.Files.{
  access-Returns, chdir-Returns, close-Returns, dup-Returns, dup2-Returns, fdatasync-Returns,
  fsync-Returns, ftruncate-Returns, isatty-Returns, link-Returns, linkat-Returns, lseek-Returns,
  pathconf-Returns, pipe-Returns, readlink-Returns, rmdir-Returns, tcgetpgrp-Returns,
  tcsetpgrp-Returns, truncate-Returns, ttyname-Returns, unlink-Returns,
}
use luaposix.Unistd.Shapes.Processes.{
  _exit-Returns, alarm-Returns, chown-Returns, crypt-Returns, exec-Returns, execp-Returns,
  fork-Returns, getegid-Returns, geteuid-Returns, getgid-Returns, getgroups-Returns,
  gethostid-Returns, getlogin-Returns, getpgrp-Returns, getpid-Returns, getppid-Returns,
  getuid-Returns, lchown-Returns, nice-Returns, setpid-Returns, sleep-Returns, sync-Returns,
  sysconf-Returns,
}
use luaposix.Unistd.Shapes.Types.{shapes_of}

module _ ⦃lua : Host⦄ {W : Type 0} (os : UnistdCalls W) (mem : Allocator W)
    (options : GetoptCalls W) where
  -- For every function of the table: where a call from Lua returns, its results have one of the
  -- lists of types that are given for the function's name.
  pub posix_unistd_fns-Returns :
      Every
        (λ (f : Bytes × Binding W). (args : Args) → Returns (shapes_of f.0) (f.1 args))
        (posix_unistd_fns os mem options)
  unfolding posix_unistd_fns
  posix_unistd_fns-Returns =
      _exit-Returns os
      ▹ access-Returns os
      ▹ alarm-Returns os
      ▹ chdir-Returns os
      ▹ chown-Returns os
      ▹ close-Returns os
      ▹ crypt-Returns os
      ▹ dup-Returns os
      ▹ dup2-Returns os
      ▹ exec-Returns os
      ▹ execp-Returns os
      ▹ fdatasync-Returns os
      ▹ fork-Returns os
      ▹ fsync-Returns os
      ▹ getcwd-Returns os mem
      ▹ getgroups-Returns os
      ▹ getegid-Returns os
      ▹ geteuid-Returns os
      ▹ getgid-Returns os
      ▹ getlogin-Returns os
      ▹ getopt-Returns options
      ▹ getpgrp-Returns os
      ▹ getpid-Returns os
      ▹ getppid-Returns os
      ▹ getuid-Returns os
      ▹ gethostid-Returns os
      ▹ isatty-Returns os
      ▹ lchown-Returns os
      ▹ link-Returns os
      ▹ linkat-Returns os
      ▹ lseek-Returns os
      ▹ nice-Returns os
      ▹ pathconf-Returns os
      ▹ pipe-Returns os
      ▹ read-Returns os mem
      ▹ readlink-Returns os
      ▹ rmdir-Returns os
      ▹ setpid-Returns os
      ▹ sleep-Returns os
      ▹ sync-Returns os
      ▹ sysconf-Returns os
      ▹ ttyname-Returns os
      ▹ tcgetpgrp-Returns os
      ▹ tcsetpgrp-Returns os
      ▹ unlink-Returns os
      ▹ write-Returns os
      ▹ ftruncate-Returns os
      ▹ truncate-Returns os
      ▹ done
