-- ===== src/Unistd/Functions.antt =====
-- ext/posix/unistd.c: the function table.
use luaposix.Base.{Bytes, List, [], lit, ◌∷◌}
use luaposix.Lua.{Binding, Host}
use luaposix.Memory.{Allocator}
use luaposix.Unistd.Calls.{UnistdCalls}
use luaposix.Unistd.Descriptors.{
  p_close, p_dup, p_dup2, p_fdatasync, p_fsync, p_ftruncate, p_isatty, p_lseek, p_pipe, p_tcgetpgrp,
  p_tcsetpgrp, p_ttyname,
}
use luaposix.Unistd.Getopt.{GetoptCalls}
use luaposix.Unistd.Getopt.Iterator.{getopt_function}
use luaposix.Unistd.Ids.{
  p_chown, p_getegid, p_geteuid, p_getgid, p_getgroups, p_getlogin, p_getuid, p_lchown, p_setpid,
}
use luaposix.Unistd.Paths.{
  p_access, p_chdir, p_link, p_linkat, p_pathconf, p_readlink, p_rmdir, p_truncate, p_unlink,
}
use luaposix.Unistd.Process.{
  p__exit, p_alarm, p_crypt, p_exec, p_execp, p_fork, p_gethostid, p_getpgrp, p_getpid, p_getppid,
  p_nice, p_sleep, p_sync, p_sysconf,
}
use luaposix.Unistd.Transfer.{p_getcwd, p_read, p_write}

module _ ⦃lua : Host⦄ {W : Type 0} (os : UnistdCalls W) (mem : Allocator W)
    (options : GetoptCalls W) where
  unfoldable pub posix_unistd_fns : List (Bytes × Binding W)
  posix_unistd_fns =
      (lit "_exit", p__exit os)
      ∷ (lit "access", p_access os)
      ∷ (lit "alarm", p_alarm os)
      ∷ (lit "chdir", p_chdir os)
      ∷ (lit "chown", p_chown os)
      ∷ (lit "close", p_close os)
      ∷ (lit "crypt", p_crypt os)
      ∷ (lit "dup", p_dup os)
      ∷ (lit "dup2", p_dup2 os)
      ∷ (lit "exec", p_exec os)
      ∷ (lit "execp", p_execp os)
      ∷ (lit "fdatasync", p_fdatasync os)
      ∷ (lit "fork", p_fork os)
      ∷ (lit "fsync", p_fsync os)
      ∷ (lit "getcwd", p_getcwd os mem)
      ∷ (lit "getgroups", p_getgroups os)
      ∷ (lit "getegid", p_getegid os)
      ∷ (lit "geteuid", p_geteuid os)
      ∷ (lit "getgid", p_getgid os)
      ∷ (lit "getlogin", p_getlogin os)
      ∷ (lit "getopt", getopt_function options)
      ∷ (lit "getpgrp", p_getpgrp os)
      ∷ (lit "getpid", p_getpid os)
      ∷ (lit "getppid", p_getppid os)
      ∷ (lit "getuid", p_getuid os)
      ∷ (lit "gethostid", p_gethostid os)
      ∷ (lit "isatty", p_isatty os)
      ∷ (lit "lchown", p_lchown os)
      ∷ (lit "link", p_link os)
      ∷ (lit "linkat", p_linkat os)
      ∷ (lit "lseek", p_lseek os)
      ∷ (lit "nice", p_nice os)
      ∷ (lit "pathconf", p_pathconf os)
      ∷ (lit "pipe", p_pipe os)
      ∷ (lit "read", p_read os mem)
      ∷ (lit "readlink", p_readlink os)
      ∷ (lit "rmdir", p_rmdir os)
      ∷ (lit "setpid", p_setpid os)
      ∷ (lit "sleep", p_sleep os)
      ∷ (lit "sync", p_sync os)
      ∷ (lit "sysconf", p_sysconf os)
      ∷ (lit "ttyname", p_ttyname os)
      ∷ (lit "tcgetpgrp", p_tcgetpgrp os)
      ∷ (lit "tcsetpgrp", p_tcsetpgrp os)
      ∷ (lit "unlink", p_unlink os)
      ∷ (lit "write", p_write os)
      ∷ (lit "ftruncate", p_ftruncate os)
      ∷ (lit "truncate", p_truncate os)
      ∷ []
