-- ===== src/Unistd/Shapes/Processes.antt =====
-- ext/posix/unistd.c: the results of the functions on processes and ids.
use luaposix.Base.{Bytes, Option, [], lit, none, some, ◌∷◌}
use luaposix.Helpers.Shapes.{Returns, result_rules}
use luaposix.Lua.{Args, Host, nil, pure, string}
use luaposix.Unistd.Calls.{UnistdCalls}
use luaposix.Unistd.Ids.{
  p_chown, p_getegid, p_geteuid, p_getgid, p_getgroups, p_getlogin, p_getuid, p_lchown, p_setpid,
}
use luaposix.Unistd.Process.{
  p__exit, p_alarm, p_crypt, p_exec, p_execp, p_fork, p_gethostid, p_getpgrp, p_getpid, p_getppid,
  p_nice, p_sleep, p_sync, p_sysconf,
}
use luaposix.Unistd.Shapes.Types.{name_or_nil, shapes_of}

module _ ⦃lua : Host⦄ {W : Type 0} (os : UnistdCalls W) where
  name_or_nil-Returns :
      (name : Option Bytes)
      → Returns {W = W} name_or_nil (pure ((elim name [ none ↦ nil | some s ↦ string s ]) ∷ []))
  name_or_nil-Returns none = search result_rules
  name_or_nil-Returns (some s) = search result_rules

  pub _exit-Returns : (args : Args) → Returns (shapes_of (lit "_exit")) (p__exit os args)
  unfolding p__exit
  _exit-Returns args = search result_rules depth 14

  pub alarm-Returns : (args : Args) → Returns (shapes_of (lit "alarm")) (p_alarm os args)
  unfolding p_alarm
  alarm-Returns args = search result_rules depth 14

  pub chown-Returns : (args : Args) → Returns (shapes_of (lit "chown")) (p_chown os args)
  unfolding p_chown
  chown-Returns args = search result_rules depth 14

  pub crypt-Returns : (args : Args) → Returns (shapes_of (lit "crypt")) (p_crypt os args)
  unfolding p_crypt
  crypt-Returns args = search (result_rules, name_or_nil-Returns) depth 14

  pub exec-Returns : (args : Args) → Returns (shapes_of (lit "exec")) (p_exec os args)
  unfolding p_exec
  exec-Returns args = search result_rules depth 14

  pub execp-Returns : (args : Args) → Returns (shapes_of (lit "execp")) (p_execp os args)
  unfolding p_execp
  execp-Returns args = search result_rules depth 14

  pub fork-Returns : (args : Args) → Returns (shapes_of (lit "fork")) (p_fork os args)
  unfolding p_fork
  fork-Returns args = search result_rules depth 14

  pub getgroups-Returns :
      (args : Args) → Returns (shapes_of (lit "getgroups")) (p_getgroups os args)
  unfolding p_getgroups
  getgroups-Returns args = search result_rules depth 14

  pub getegid-Returns : (args : Args) → Returns (shapes_of (lit "getegid")) (p_getegid os args)
  unfolding p_getegid
  getegid-Returns args = search result_rules depth 14

  pub geteuid-Returns : (args : Args) → Returns (shapes_of (lit "geteuid")) (p_geteuid os args)
  unfolding p_geteuid
  geteuid-Returns args = search result_rules depth 14

  pub getgid-Returns : (args : Args) → Returns (shapes_of (lit "getgid")) (p_getgid os args)
  unfolding p_getgid
  getgid-Returns args = search result_rules depth 14

  pub getlogin-Returns : (args : Args) → Returns (shapes_of (lit "getlogin")) (p_getlogin os args)
  unfolding p_getlogin
  getlogin-Returns args = search (result_rules, name_or_nil-Returns) depth 14

  pub getpgrp-Returns : (args : Args) → Returns (shapes_of (lit "getpgrp")) (p_getpgrp os args)
  unfolding p_getpgrp
  getpgrp-Returns args = search result_rules depth 14

  pub getpid-Returns : (args : Args) → Returns (shapes_of (lit "getpid")) (p_getpid os args)
  unfolding p_getpid
  getpid-Returns args = search result_rules depth 14

  pub getppid-Returns : (args : Args) → Returns (shapes_of (lit "getppid")) (p_getppid os args)
  unfolding p_getppid
  getppid-Returns args = search result_rules depth 14

  pub getuid-Returns : (args : Args) → Returns (shapes_of (lit "getuid")) (p_getuid os args)
  unfolding p_getuid
  getuid-Returns args = search result_rules depth 14

  pub gethostid-Returns :
      (args : Args) → Returns (shapes_of (lit "gethostid")) (p_gethostid os args)
  unfolding p_gethostid
  gethostid-Returns args = search result_rules depth 14

  pub lchown-Returns : (args : Args) → Returns (shapes_of (lit "lchown")) (p_lchown os args)
  unfolding p_lchown
  lchown-Returns args = search result_rules depth 14

  pub nice-Returns : (args : Args) → Returns (shapes_of (lit "nice")) (p_nice os args)
  unfolding p_nice
  nice-Returns args = search result_rules depth 14

  pub setpid-Returns : (args : Args) → Returns (shapes_of (lit "setpid")) (p_setpid os args)
  unfolding p_setpid
  setpid-Returns args = search result_rules depth 14

  pub sleep-Returns : (args : Args) → Returns (shapes_of (lit "sleep")) (p_sleep os args)
  unfolding p_sleep
  sleep-Returns args = search result_rules depth 14

  pub sync-Returns : (args : Args) → Returns (shapes_of (lit "sync")) (p_sync os args)
  unfolding p_sync
  sync-Returns args = search result_rules depth 14

  pub sysconf-Returns : (args : Args) → Returns (shapes_of (lit "sysconf")) (p_sysconf os args)
  unfolding p_sysconf
  sysconf-Returns args = search result_rules depth 14
