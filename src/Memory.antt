-- ===== src/Memory.antt =====
-- The blocks that the bindings take from Lua's allocator, lua_getallocf, and give back.
pub mod Balance
use luaposix.Base.{Bool, Option, false, none, some, true, ℕ}
use luaposix.Lua.{Call, Exec, call, pure}

-- `none` is NULL
pub record Allocator (W : Type 0) : Type 0 where
  pub alloc : ℕ → Call W (Option ℕ)
  pub free : ℕ → ℕ → Call W (Unit {0})

-- lalloc (ud, NULL, 0, size)
abbrev pub allocate : {W : Type 0} → Allocator W → ℕ → Exec W (Option ℕ)
allocate mem size = call (mem.alloc size)

-- lalloc (ud, block, size, 0), which does nothing for NULL
abbrev pub release : {W : Type 0} → Allocator W → Option ℕ → ℕ → Exec W (Unit {0})
release mem none size = pure tt
release mem (some block) size = call (mem.free block size)

abbrev pub is_null : Option ℕ → Bool
is_null none = true
is_null (some block) = false
