-- ===== src/Unistd/Shapes/Buffers.antt =====
-- ext/posix/unistd.c: the results of read, write, getcwd and getopt.
use luaposix.Base.{Bytes, Option, lit, none, some, ℤ}
use luaposix.Helpers.Results.{pushintegerresult}
use luaposix.Helpers.Shapes.{Returns, result_rules}
use luaposix.Lua.{Args, Host}
use luaposix.Memory.{Allocator}
use luaposix.Unistd.Calls.{UnistdCalls}
use luaposix.Unistd.Getopt.{GetoptCalls}
use luaposix.Unistd.Getopt.Iterator.{getopt_function}
use luaposix.Unistd.Shapes.Types.{shapes_of}
use luaposix.Unistd.Transfer.{
  Plan, follow_plan, getcwd_block, invalid, nothing, or_error, p_getcwd, p_read, p_write,
  read_block, window,
}

module _ ⦃lua : Host⦄ {W : Type 0} (os : UnistdCalls W) where
  follow_plan-Returns :
      (fd : ℤ) (buf : Bytes) (len : ℤ) (p : Plan)
      → Returns (shapes_of (lit "write")) (follow_plan os fd buf len p)
  unfolding follow_plan pushintegerresult
  follow_plan-Returns fd buf len nothing = search result_rules
  follow_plan-Returns fd buf len (window start size) = search result_rules
  follow_plan-Returns fd buf len (invalid at) = search result_rules

  pub write-Returns : (args : Args) → Returns (shapes_of (lit "write")) (p_write os args)
  unfolding p_write
  write-Returns args = search (result_rules, follow_plan-Returns) depth 16

  pub read-Returns :
      (mem : Allocator W) (args : Args) → Returns (shapes_of (lit "read")) (p_read os mem args)
  unfolding p_read read_block
  read-Returns mem args = search result_rules depth 16

  or_error-Returns : (r : Option Bytes) → Returns (shapes_of (lit "getcwd")) (or_error os r)
  or_error-Returns none = search result_rules
  or_error-Returns (some s) = search result_rules

  pub getcwd-Returns :
      (mem : Allocator W) (args : Args) → Returns (shapes_of (lit "getcwd")) (p_getcwd os mem args)
  unfolding p_getcwd getcwd_block
  getcwd-Returns mem args = search (result_rules, or_error-Returns) depth 16

pub getopt-Returns :
    ⦃lua : Host⦄ {W : Type 0} (os : GetoptCalls W) (args : Args)
    → Returns (shapes_of (lit "getopt")) (getopt_function os args)
unfolding getopt_function
getopt-Returns os args = search result_rules depth 16
