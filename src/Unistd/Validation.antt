-- ===== src/Unistd/Validation.antt =====
-- ext/posix/unistd.c: the functions, and the checks of their arguments.
mod Files
mod Processes
mod Buffers
use luaposix.Base.{Bool, Bytes, Every, [], done, inl, inr, lit, refl, true, ◌∷◌, ◌≡◌, ◌⊎◌, ◌▹◌}
use luaposix.Helpers.Fields.{is_listed}
use luaposix.Helpers.Validation.{Clean}
use luaposix.Lua.{Args, Binding, Host}
use luaposix.Memory.{Allocator}
use luaposix.Unistd.Calls.{UnistdCalls}
use luaposix.Unistd.Functions.{posix_unistd_fns}
use luaposix.Unistd.Getopt.{GetoptCalls}
use luaposix.Unistd.Validation.Buffers.{read-Clean, write-Clean}
use luaposix.Unistd.Validation.Files.{
  access-Clean, chdir-Clean, close-Clean, dup-Clean, dup2-Clean, fdatasync-Clean, fsync-Clean,
  ftruncate-Clean, isatty-Clean, link-Clean, linkat-Clean, lseek-Clean, pathconf-Clean, pipe-Clean,
  readlink-Clean, rmdir-Clean, tcgetpgrp-Clean, tcsetpgrp-Clean, truncate-Clean, ttyname-Clean,
  unlink-Clean,
}
use luaposix.Unistd.Validation.Processes.{
  _exit-Clean, alarm-Clean, crypt-Clean, exec-Clean, execp-Clean, fork-Clean, getegid-Clean,
  geteuid-Clean, getgid-Clean, gethostid-Clean, getlogin-Clean, getpgrp-Clean, getpid-Clean,
  getppid-Clean, getuid-Clean, nice-Clean, setpid-Clean, sleep-Clean, sync-Clean, sysconf-Clean,
}

-- chown and lchown look names up, getgroups counts and getcwd asks for the longest path before the
-- number of arguments is checked; getopt writes opterr and optind before it reads the rest
abbrev pub calls_before_its_checks : Bytes → Bool
calls_before_its_checks name =
    is_listed name (lit "chown" ∷ lit "lchown" ∷ lit "getgroups" ∷ lit "getcwd" ∷ lit "getopt" ∷ [])

module _ ⦃lua : Host⦄ {W : Type 0} (os : UnistdCalls W) (mem : Allocator W)
    (options : GetoptCalls W) where
  -- For every function of the table except chown, lchown, getgroups, getcwd and getopt: where a call
  -- from Lua
  -- raises an error, the process, errno included, is as it was before the call.
  pub posix_unistd_fns-Clean :
      Every
        (λ (f : Bytes × Binding W).
          (calls_before_its_checks f.0 ≡ true) ⊎ ((args : Args) → Clean (f.1 args)))
        (posix_unistd_fns os mem options)
  unfolding posix_unistd_fns
  posix_unistd_fns-Clean =
      inr (_exit-Clean os)
      ▹ inr (access-Clean os)
      ▹ inr (alarm-Clean os)
      ▹ inr (chdir-Clean os)
      ▹ inl refl
      ▹ inr (close-Clean os)
      ▹ inr (crypt-Clean os)
      ▹ inr (dup-Clean os)
      ▹ inr (dup2-Clean os)
      ▹ inr (exec-Clean os)
      ▹ inr (execp-Clean os)
      ▹ inr (fdatasync-Clean os)
      ▹ inr (fork-Clean os)
      ▹ inr (fsync-Clean os)
      ▹ inl refl
      ▹ inl refl
      ▹ inr (getegid-Clean os)
      ▹ inr (geteuid-Clean os)
      ▹ inr (getgid-Clean os)
      ▹ inr (getlogin-Clean os)
      ▹ inl refl
      ▹ inr (getpgrp-Clean os)
      ▹ inr (getpid-Clean os)
      ▹ inr (getppid-Clean os)
      ▹ inr (getuid-Clean os)
      ▹ inr (gethostid-Clean os)
      ▹ inr (isatty-Clean os)
      ▹ inl refl
      ▹ inr (link-Clean os)
      ▹ inr (linkat-Clean os)
      ▹ inr (lseek-Clean os)
      ▹ inr (nice-Clean os)
      ▹ inr (pathconf-Clean os)
      ▹ inr (pipe-Clean os)
      ▹ inr (read-Clean os mem)
      ▹ inr (readlink-Clean os)
      ▹ inr (rmdir-Clean os)
      ▹ inr (setpid-Clean os)
      ▹ inr (sleep-Clean os)
      ▹ inr (sync-Clean os)
      ▹ inr (sysconf-Clean os)
      ▹ inr (ttyname-Clean os)
      ▹ inr (tcgetpgrp-Clean os)
      ▹ inr (tcsetpgrp-Clean os)
      ▹ inr (unlink-Clean os)
      ▹ inr (write-Clean os)
      ▹ inr (ftruncate-Clean os)
      ▹ inr (truncate-Clean os)
      ▹ done
