-- ===== src/Sys/Wait.antt =====
-- ext/posix/sys/wait.c: Pwait. The macros on the status are the system's.
use luaposix.Base.{Bool, List, [], cast_int, eq_ℤ, if◌then◌else◌, lit, minus_one, none, pos, ℤ, ◌∷◌}
use luaposix.Helpers.Args.{checknargs, optint, optinteger}
use luaposix.Helpers.Results.{pusherror}
use luaposix.Lua.{Binding, Call, Host, Value, call, integer, lift, pure, string, ◌>>=◌, ◌>>◌}

pub record WaitCalls (W : Type 0) : Type 0 where
  -- the pid, and the status
  pub waitpid : ℤ → ℤ → Call W (ℤ × ℤ)
  pub wifexited : ℤ → Bool
  pub wexitstatus : ℤ → ℤ
  pub wifsignaled : ℤ → Bool
  pub wtermsig : ℤ → ℤ
  pub wifstopped : ℤ → Bool
  pub wstopsig : ℤ → ℤ

module _ ⦃lua : Host⦄ {W : Type 0} (os : WaitCalls W) where
  -- what follows the pid among the results
  abbrev pub push_status : ℤ → ℤ → List Value
  push_status pid status =
      if eq_ℤ pid (pos 0)
      then string (lit "running") ∷ []
      else if os.wifexited status
      then string (lit "exited") ∷ integer (os.wexitstatus status) ∷ []
      else if os.wifsignaled status
      then string (lit "killed") ∷ integer (os.wtermsig status) ∷ []
      else if os.wifstopped status
      then string (lit "stopped") ∷ integer (os.wstopsig status) ∷ []
      else []

  unfoldable pub p_wait : Binding W
  unfolding ◌>>=◌ optinteger optint checknargs pusherror
  p_wait args = do
    pid ← lift (optinteger args 1 minus_one)
    options ← lift (optint args 2 (pos 0))
    lift (checknargs args 2)
    (pid', status) ← call (os.waitpid (cast_int pid) options)
    if eq_ℤ pid' minus_one then pusherror none else pure (integer pid' ∷ push_status pid' status)
