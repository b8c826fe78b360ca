-- ===== src/Unistd/Validation/Buffers.antt =====
-- ext/posix/unistd.c: the checks of read and write.
use luaposix.Base.{Bytes, Option, none, some, ℕ, ℤ}
use luaposix.Helpers.Results.{pushintegerresult}
use luaposix.Helpers.Validation.{Clean, Total, Total-call, Total-pure, validation_rules}
use luaposix.Lua.{Args, Host}
use luaposix.Memory.{Allocator, release}
use luaposix.Unistd.Calls.{UnistdCalls}
use luaposix.Unistd.Transfer.{
  Plan, follow_plan, invalid, nothing, p_read, p_write, read_block, window,
}

module _ ⦃lua : Host⦄ {W : Type 0} (os : UnistdCalls W) where
  follow_plan-Total :
      (fd : ℤ) (buf : Bytes) (len : ℤ) (p : Plan) → Total (follow_plan os fd buf len p)
  unfolding follow_plan pushintegerresult
  follow_plan-Total fd buf len nothing = search validation_rules
  follow_plan-Total fd buf len (window start size) = search validation_rules
  follow_plan-Total fd buf len (invalid at) = search validation_rules

  pub write-Clean : (args : Args) → Clean (p_write os args)
  unfolding p_write
  write-Clean args = search (validation_rules, follow_plan-Total) depth 16

  release-Total : (mem : Allocator W) (block : Option ℕ) (size : ℕ) → Total (release mem block size)
  release-Total mem none size = Total-pure _
  release-Total mem (some block) size = Total-call _

  read_block-Total : (mem : Allocator W) (fd : ℤ) (count : ℕ) → Total (read_block os mem fd count)
  unfolding read_block
  read_block-Total mem fd count = search (validation_rules, release-Total) depth 16

  pub read-Clean : (mem : Allocator W) (args : Args) → Clean (p_read os mem args)
  unfolding p_read
  read-Clean mem args = search (validation_rules, read_block-Total) depth 16
