-- ===== src/Unistd/Shapes/Files.antt =====
-- ext/posix/unistd.c: the results of the functions on descriptors and paths.
use luaposix.Base.{Bytes, Option, lit, none, some, ℤ}
use luaposix.Helpers.Shapes.{Returns, result_rules}
use luaposix.Lua.{Args, Host}
use luaposix.Unistd.Calls.{UnistdCalls}
use luaposix.Unistd.Descriptors.{
  name_or_reason, p_close, p_dup, p_dup2, p_fdatasync, p_fsync, p_ftruncate, p_isatty, p_lseek,
  p_pipe, p_tcgetpgrp, p_tcsetpgrp, p_ttyname,
}
use luaposix.Unistd.Paths.{
  p_access, p_chdir, p_link, p_linkat, p_pathconf, p_readlink, p_rmdir, p_truncate, p_unlink,
}
use luaposix.Unistd.Shapes.Types.{shapes_of}

module _ ⦃lua : Host⦄ {W : Type 0} (os : UnistdCalls W) where
  name_or_reason-Returns :
      (name : Option Bytes) (n : ℤ)
      → Returns {W = W} (shapes_of (lit "ttyname")) (name_or_reason os name n)
  name_or_reason-Returns none n = search result_rules
  name_or_reason-Returns (some s) n = search result_rules

  pub access-Returns : (args : Args) → Returns (shapes_of (lit "access")) (p_access os args)
  unfolding p_access
  access-Returns args = search result_rules depth 14

  pub chdir-Returns : (args : Args) → Returns (shapes_of (lit "chdir")) (p_chdir os args)
  unfolding p_chdir
  chdir-Returns args = search result_rules depth 14

  pub close-Returns : (args : Args) → Returns (shapes_of (lit "close")) (p_close os args)
  unfolding p_close
  close-Returns args = search result_rules depth 14

  pub dup-Returns : (args : Args) → Returns (shapes_of (lit "dup")) (p_dup os args)
  unfolding p_dup
  dup-Returns args = search result_rules depth 14

  pub dup2-Returns : (args : Args) → Returns (shapes_of (lit "dup2")) (p_dup2 os args)
  unfolding p_dup2
  dup2-Returns args = search result_rules depth 14

  pub fdatasync-Returns :
      (args : Args) → Returns (shapes_of (lit "fdatasync")) (p_fdatasync os args)
  unfolding p_fdatasync
  fdatasync-Returns args = search result_rules depth 14

  pub fsync-Returns : (args : Args) → Returns (shapes_of (lit "fsync")) (p_fsync os args)
  unfolding p_fsync
  fsync-Returns args = search result_rules depth 14

  pub isatty-Returns : (args : Args) → Returns (shapes_of (lit "isatty")) (p_isatty os args)
  unfolding p_isatty
  isatty-Returns args = search result_rules depth 14

  pub link-Returns : (args : Args) → Returns (shapes_of (lit "link")) (p_link os args)
  unfolding p_link
  link-Returns args = search result_rules depth 14

  pub linkat-Returns : (args : Args) → Returns (shapes_of (lit "linkat")) (p_linkat os args)
  unfolding p_linkat
  linkat-Returns args = search result_rules depth 14

  pub lseek-Returns : (args : Args) → Returns (shapes_of (lit "lseek")) (p_lseek os args)
  unfolding p_lseek
  lseek-Returns args = search result_rules depth 14

  pub pathconf-Returns : (args : Args) → Returns (shapes_of (lit "pathconf")) (p_pathconf os args)
  unfolding p_pathconf
  pathconf-Returns args = search result_rules depth 14

  pub pipe-Returns : (args : Args) → Returns (shapes_of (lit "pipe")) (p_pipe os args)
  unfolding p_pipe
  pipe-Returns args = search result_rules depth 14

  pub readlink-Returns : (args : Args) → Returns (shapes_of (lit "readlink")) (p_readlink os args)
  unfolding p_readlink
  readlink-Returns args = search result_rules depth 14

  pub rmdir-Returns : (args : Args) → Returns (shapes_of (lit "rmdir")) (p_rmdir os args)
  unfolding p_rmdir
  rmdir-Returns args = search result_rules depth 14

  pub ttyname-Returns : (args : Args) → Returns (shapes_of (lit "ttyname")) (p_ttyname os args)
  unfolding p_ttyname
  ttyname-Returns args = search (result_rules, name_or_reason-Returns) depth 14

  pub tcgetpgrp-Returns :
      (args : Args) → Returns (shapes_of (lit "tcgetpgrp")) (p_tcgetpgrp os args)
  unfolding p_tcgetpgrp
  tcgetpgrp-Returns args = search result_rules depth 14

  pub tcsetpgrp-Returns :
      (args : Args) → Returns (shapes_of (lit "tcsetpgrp")) (p_tcsetpgrp os args)
  unfolding p_tcsetpgrp
  tcsetpgrp-Returns args = search result_rules depth 14

  pub unlink-Returns : (args : Args) → Returns (shapes_of (lit "unlink")) (p_unlink os args)
  unfolding p_unlink
  unlink-Returns args = search result_rules depth 14

  pub ftruncate-Returns :
      (args : Args) → Returns (shapes_of (lit "ftruncate")) (p_ftruncate os args)
  unfolding p_ftruncate
  ftruncate-Returns args = search result_rules depth 14

  pub truncate-Returns : (args : Args) → Returns (shapes_of (lit "truncate")) (p_truncate os args)
  unfolding p_truncate
  truncate-Returns args = search result_rules depth 14
