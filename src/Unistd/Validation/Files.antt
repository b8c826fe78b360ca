-- ===== src/Unistd/Validation/Files.antt =====
-- ext/posix/unistd.c: the checks of the functions on descriptors and paths.
use luaposix.Base.{Bytes, Option, none, some, ℤ}
use luaposix.Helpers.Validation.{Clean, Total, validation_rules}
use luaposix.Lua.{Args, Host}
use luaposix.Unistd.Calls.{UnistdCalls}
use luaposix.Unistd.Descriptors.{
  name_or_reason, p_close, p_dup, p_dup2, p_fdatasync, p_fsync, p_ftruncate, p_isatty, p_lseek,
  p_pipe, p_tcgetpgrp, p_tcsetpgrp, p_ttyname,
}
use luaposix.Unistd.Paths.{
  p_access, p_chdir, p_link, p_linkat, p_pathconf, p_readlink, p_rmdir, p_truncate, p_unlink,
}

module _ ⦃lua : Host⦄ {W : Type 0} (os : UnistdCalls W) where
  name_or_reason-Total : (name : Option Bytes) (n : ℤ) → Total {W = W} (name_or_reason os name n)
  name_or_reason-Total none n = search validation_rules
  name_or_reason-Total (some s) n = search validation_rules

  pub access-Clean : (args : Args) → Clean (p_access os args)
  unfolding p_access
  access-Clean args = search validation_rules depth 14

  pub chdir-Clean : (args : Args) → Clean (p_chdir os args)
  unfolding p_chdir
  chdir-Clean args = search validation_rules depth 14

  pub close-Clean : (args : Args) → Clean (p_close os args)
  unfolding p_close
  close-Clean args = search validation_rules depth 14

  pub dup-Clean : (args : Args) → Clean (p_dup os args)
  unfolding p_dup
  dup-Clean args = search validation_rules depth 14

  pub dup2-Clean : (args : Args) → Clean (p_dup2 os args)
  unfolding p_dup2
  dup2-Clean args = search validation_rules depth 14

  pub fdatasync-Clean : (args : Args) → Clean (p_fdatasync os args)
  unfolding p_fdatasync
  fdatasync-Clean args = search validation_rules depth 14

  pub fsync-Clean : (args : Args) → Clean (p_fsync os args)
  unfolding p_fsync
  fsync-Clean args = search validation_rules depth 14

  pub isatty-Clean : (args : Args) → Clean (p_isatty os args)
  unfolding p_isatty
  isatty-Clean args = search validation_rules depth 14

  pub link-Clean : (args : Args) → Clean (p_link os args)
  unfolding p_link
  link-Clean args = search validation_rules depth 14

  pub linkat-Clean : (args : Args) → Clean (p_linkat os args)
  unfolding p_linkat
  linkat-Clean args = search validation_rules depth 14

  pub lseek-Clean : (args : Args) → Clean (p_lseek os args)
  unfolding p_lseek
  lseek-Clean args = search validation_rules depth 14

  pub pathconf-Clean : (args : Args) → Clean (p_pathconf os args)
  unfolding p_pathconf
  pathconf-Clean args = search validation_rules depth 14

  pub pipe-Clean : (args : Args) → Clean (p_pipe os args)
  unfolding p_pipe
  pipe-Clean args = search validation_rules depth 14

  pub readlink-Clean : (args : Args) → Clean (p_readlink os args)
  unfolding p_readlink
  readlink-Clean args = search validation_rules depth 14

  pub rmdir-Clean : (args : Args) → Clean (p_rmdir os args)
  unfolding p_rmdir
  rmdir-Clean args = search validation_rules depth 14

  pub ttyname-Clean : (args : Args) → Clean (p_ttyname os args)
  unfolding p_ttyname
  ttyname-Clean args = search (validation_rules, name_or_reason-Total) depth 14

  pub tcgetpgrp-Clean : (args : Args) → Clean (p_tcgetpgrp os args)
  unfolding p_tcgetpgrp
  tcgetpgrp-Clean args = search validation_rules depth 14

  pub tcsetpgrp-Clean : (args : Args) → Clean (p_tcsetpgrp os args)
  unfolding p_tcsetpgrp
  tcsetpgrp-Clean args = search validation_rules depth 14

  pub unlink-Clean : (args : Args) → Clean (p_unlink os args)
  unfolding p_unlink
  unlink-Clean args = search validation_rules depth 14

  pub ftruncate-Clean : (args : Args) → Clean (p_ftruncate os args)
  unfolding p_ftruncate
  ftruncate-Clean args = search validation_rules depth 14

  pub truncate-Clean : (args : Args) → Clean (p_truncate os args)
  unfolding p_truncate
  truncate-Clean args = search validation_rules depth 14
