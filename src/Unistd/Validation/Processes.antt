-- ===== src/Unistd/Validation/Processes.antt =====
-- ext/posix/unistd.c: the checks of the functions on processes and ids.
use luaposix.Base.{Bytes, Option, ℕ}
use luaposix.Helpers.Validation.{Clean, Clean-lift, validation_rules}
use luaposix.Lua.{Args, Call, Host, Value, float, int, nil, number, string}
use luaposix.Unistd.Calls.{UnistdCalls}
use luaposix.Unistd.Ids.{
  id_of_value, mygetgid, mygetuid, p_getegid, p_geteuid, p_getgid, p_getlogin, p_getuid, p_setpid,
}
use luaposix.Unistd.Process.{
  p__exit, p_alarm, p_crypt, p_exec, p_execp, p_fork, p_gethostid, p_getpgrp, p_getpid, p_getppid,
  p_nice, p_sleep, p_sync, p_sysconf,
}

module _ ⦃lua : Host⦄ {W : Type 0} (os : UnistdCalls W) where
  id_of_value-Clean :
      (find : Bytes → Call W (Option ℕ)) (args : Args) (i : ℕ) (v : Value)
      → Clean (id_of_value os find args i v)
  id_of_value-Clean find args i nil = Clean-lift _
  id_of_value-Clean find args i (number (int z)) = search validation_rules
  id_of_value-Clean find args i (number (float x)) = search validation_rules
  id_of_value-Clean find args i (string s) = search validation_rules
  id_of_value-Clean find args i _ = Clean-lift _

  mygetuid-Clean : (args : Args) (i : ℕ) → Clean (mygetuid os args i)
  unfolding mygetuid
  mygetuid-Clean args i = search (validation_rules, id_of_value-Clean)

  mygetgid-Clean : (args : Args) (i : ℕ) → Clean (mygetgid os args i)
  unfolding mygetgid
  mygetgid-Clean args i = search (validation_rules, id_of_value-Clean)

  pub _exit-Clean : (args : Args) → Clean (p__exit os args)
  unfolding p__exit
  _exit-Clean args = search validation_rules depth 14

  pub crypt-Clean : (args : Args) → Clean (p_crypt os args)
  unfolding p_crypt
  crypt-Clean args = search validation_rules depth 14

  pub alarm-Clean : (args : Args) → Clean (p_alarm os args)
  unfolding p_alarm
  alarm-Clean args = search validation_rules depth 14

  pub exec-Clean : (args : Args) → Clean (p_exec os args)
  unfolding p_exec
  exec-Clean args = search validation_rules depth 14

  pub execp-Clean : (args : Args) → Clean (p_execp os args)
  unfolding p_execp
  execp-Clean args = search validation_rules depth 14

  pub fork-Clean : (args : Args) → Clean (p_fork os args)
  unfolding p_fork
  fork-Clean args = search validation_rules depth 14

  pub getegid-Clean : (args : Args) → Clean (p_getegid os args)
  unfolding p_getegid
  getegid-Clean args = search validation_rules depth 14

  pub geteuid-Clean : (args : Args) → Clean (p_geteuid os args)
  unfolding p_geteuid
  geteuid-Clean args = search validation_rules depth 14

  pub getgid-Clean : (args : Args) → Clean (p_getgid os args)
  unfolding p_getgid
  getgid-Clean args = search validation_rules depth 14

  pub getlogin-Clean : (args : Args) → Clean (p_getlogin os args)
  unfolding p_getlogin
  getlogin-Clean args = search validation_rules depth 14

  pub getpgrp-Clean : (args : Args) → Clean (p_getpgrp os args)
  unfolding p_getpgrp
  getpgrp-Clean args = search validation_rules depth 14

  pub getpid-Clean : (args : Args) → Clean (p_getpid os args)
  unfolding p_getpid
  getpid-Clean args = search validation_rules depth 14

  pub getppid-Clean : (args : Args) → Clean (p_getppid os args)
  unfolding p_getppid
  getppid-Clean args = search validation_rules depth 14

  pub getuid-Clean : (args : Args) → Clean (p_getuid os args)
  unfolding p_getuid
  getuid-Clean args = search validation_rules depth 14

  pub gethostid-Clean : (args : Args) → Clean (p_gethostid os args)
  unfolding p_gethostid
  gethostid-Clean args = search validation_rules depth 14

  pub nice-Clean : (args : Args) → Clean (p_nice os args)
  unfolding p_nice
  nice-Clean args = search validation_rules depth 14

  pub setpid-Clean : (args : Args) → Clean (p_setpid os args)
  unfolding p_setpid
  setpid-Clean args = search (validation_rules, mygetuid-Clean, mygetgid-Clean) depth 14

  pub sleep-Clean : (args : Args) → Clean (p_sleep os args)
  unfolding p_sleep
  sleep-Clean args = search validation_rules depth 14

  pub sync-Clean : (args : Args) → Clean (p_sync os args)
  unfolding p_sync
  sync-Clean args = search validation_rules depth 14

  pub sysconf-Clean : (args : Args) → Clean (p_sysconf os args)
  unfolding p_sysconf
  sysconf-Clean args = search validation_rules depth 14
