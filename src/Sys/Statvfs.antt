-- ===== src/Sys/Statvfs.antt =====
-- ext/posix/sys/statvfs.c. The fields of a struct statvfs are unsigned integers of 64 bits at most; as
-- a lua_Integer they are signed.
use luaposix.Base.{Bytes, [], cast_long, eq_ℤ, if◌then◌else◌, lit, minus_one, pos, some, ℕ, ℤ, ◌∷◌}
use luaposix.Helpers.Args.{checknargs, checkstring}
use luaposix.Helpers.Results.{pusherror, typed_table}
use luaposix.Lua.{Binding, Call, Host, Value, call, integer, lift, pure, ◌>>=◌, ◌>>◌}

pub record Statvfs : Type 0 where
  pub f_bsize : ℕ
  pub f_frsize : ℕ
  pub f_blocks : ℕ
  pub f_bfree : ℕ
  pub f_bavail : ℕ
  pub f_files : ℕ
  pub f_ffree : ℕ
  pub f_favail : ℕ
  pub f_fsid : ℕ
  pub f_flag : ℕ
  pub f_namemax : ℕ

pub record StatvfsCalls (W : Type 0) : Type 0 where
  pub statvfs : Bytes → Call W (ℤ × Statvfs)

abbrev unsigned : ℕ → Value
unsigned n = integer (cast_long (pos n))

unfoldable pub pushstatvfs : Statvfs → Value
unfolding typed_table
pushstatvfs sv = typed_table (lit "PosixStatvfs") (
    (lit "f_bsize", unsigned sv.f_bsize)
    ∷ (lit "f_frsize", unsigned sv.f_frsize)
    ∷ (lit "f_blocks", unsigned sv.f_blocks)
    ∷ (lit "f_bfree", unsigned sv.f_bfree)
    ∷ (lit "f_bavail", unsigned sv.f_bavail)
    ∷ (lit "f_files", unsigned sv.f_files)
    ∷ (lit "f_ffree", unsigned sv.f_ffree)
    ∷ (lit "f_favail", unsigned sv.f_favail)
    ∷ (lit "f_fsid", unsigned sv.f_fsid)
    ∷ (lit "f_flag", unsigned sv.f_flag)
    ∷ (lit "f_namemax", unsigned sv.f_namemax)
    ∷ [])

unfoldable pub p_statvfs : ⦃lua : Host⦄ {W : Type 0} (os : StatvfsCalls W) → Binding W
unfolding ◌>>=◌ checkstring checknargs pusherror pushstatvfs
p_statvfs os args = do
  path ← lift (checkstring args 1)
  lift (checknargs args 1)
  (r, s) ← call (os.statvfs path)
  if eq_ℤ r minus_one then pusherror (some path) else pure (pushstatvfs s ∷ [])
