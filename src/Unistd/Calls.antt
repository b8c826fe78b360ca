-- ===== src/Unistd/Calls.antt =====
-- The calls that ext/posix/unistd.c makes. An int and a long of the system come back as integers.
use luaposix.Base.{Bool, Bytes, List, Option, ℕ, ℤ}
use luaposix.Lua.{Call}

pub record UnistdCalls (W : Type 0) : Type 0 where
  pub getpwnam : Bytes → Call W (Option ℕ)
  pub getgrnam : Bytes → Call W (Option ℕ)
  pub access : Bytes → ℕ → Call W ℤ
  pub alarm : ℕ → Call W ℕ
  pub chdir : Bytes → Call W ℤ
  pub chown : Bytes → ℕ → ℕ → Call W ℤ
  pub lchown : Bytes → ℕ → ℕ → Call W ℤ
  pub close : ℤ → Call W ℤ
  pub dup : ℤ → Call W ℤ
  pub dup2 : ℤ → ℤ → Call W ℤ
  -- the path, and argv up to its NULL; they come back only to fail
  pub execv : Bytes → List (Option Bytes) → Call W (Unit {0})
  pub execvp : Bytes → List (Option Bytes) → Call W (Unit {0})
  pub crypt : Bytes → Bytes → Call W (Option Bytes)
  pub fdatasync : ℤ → Call W ℤ
  -- _exit, which does not come back
  pub leave : ℤ → Call W (Unit {0})
  pub fork : Call W ℤ
  pub fsync : ℤ → Call W ℤ
  pub getegid : Call W ℤ
  pub geteuid : Call W ℤ
  pub getgid : Call W ℤ
  pub getuid : Call W ℤ
  pub getpgrp : Call W ℤ
  pub getpid : Call W ℤ
  pub getppid : Call W ℤ
  pub gethostid : Call W ℤ
  pub getlogin : Call W (Option Bytes)
  -- getgroups (0, NULL), and getgroups (n, group) with the slots that it filled
  pub count_groups : Call W ℤ
  pub getgroups : ℤ → Call W (ℤ × List ℤ)
  pub isatty : ℤ → Call W ℤ
  pub symlink : Bytes → Bytes → Call W ℤ
  pub link : Bytes → Bytes → Call W ℤ
  pub linkat : ℤ → Bytes → ℤ → Bytes → ℤ → Call W ℤ
  pub lseek : ℤ → ℤ → ℤ → Call W ℤ
  pub nice : ℤ → Call W ℤ
  pub pathconf : Bytes → ℤ → Call W ℤ
  pub pipe : Call W (ℤ × ℤ × ℤ)
  pub rmdir : Bytes → Call W ℤ
  pub seteuid : ℕ → Call W ℤ
  pub setuid : ℕ → Call W ℤ
  pub setegid : ℕ → Call W ℤ
  pub setgid : ℕ → Call W ℤ
  pub setsid : Call W ℤ
  pub setpgid : ℤ → ℤ → Call W ℤ
  pub sleep : ℕ → Call W ℕ
  pub sync : Call W (Unit {0})
  pub sysconf : ℤ → Call W ℤ
  pub ttyname : ℤ → Call W (Option Bytes)
  pub tcgetpgrp : ℤ → Call W ℤ
  pub tcsetpgrp : ℤ → ℤ → Call W ℤ
  pub unlink : Bytes → Call W ℤ
  -- the buffer, and the offset and the count of what is written
  pub write : ℤ → Bytes → ℤ → ℤ → Call W ℤ
  -- the result, and the bytes that were put in the buffer
  pub read : ℤ → ℕ → Call W (ℤ × Bytes)
  pub getcwd : ℕ → Call W (Option Bytes)
  pub posix_path_max : ℕ
  pub pc_path_max : ℤ
  pub ftruncate : ℤ → ℤ → Call W ℤ
  pub truncate : Bytes → ℤ → Call W ℤ
  -- lstat: the result, and st_mode
  pub lstat_mode : Bytes → Call W (ℤ × ℕ)
  -- S_ISLNK
  pub is_link : ℕ → Bool
  -- the result, and the bytes that were put in the buffer
  pub readlink : Bytes → ℕ → Call W (ℤ × Bytes)
  -- F_OK, R_OK, W_OK, X_OK, PATH_MAX and EINVAL
  pub f_ok : ℕ
  pub r_ok : ℕ
  pub w_ok : ℕ
  pub x_ok : ℕ
  pub path_max : ℕ
  pub einval : ℤ
