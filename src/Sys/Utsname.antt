-- ===== src/Sys/Utsname.antt =====
-- ext/posix/sys/utsname.c.
use luaposix.Base.{Bytes, [], eq_ℤ, if◌then◌else◌, lit, minus_one, some, ℤ, ◌∷◌}
use luaposix.Helpers.Args.{checknargs}
use luaposix.Helpers.Results.{pusherror, typed_table}
use luaposix.Lua.{Binding, Call, Host, Value, call, lift, pure, string, ◌>>=◌, ◌>>◌}

pub record Utsname : Type 0 where
  pub machine : Bytes
  pub nodename : Bytes
  pub release : Bytes
  pub sysname : Bytes
  pub version : Bytes

pub record UtsnameCalls (W : Type 0) : Type 0 where
  pub uname : Call W (ℤ × Utsname)

unfoldable pub pushutsname : Utsname → Value
unfolding typed_table
pushutsname u = typed_table (lit "PosixUtsname") (
    (lit "machine", string u.machine)
    ∷ (lit "nodename", string u.nodename)
    ∷ (lit "release", string u.release)
    ∷ (lit "sysname", string u.sysname)
    ∷ (lit "version", string u.version)
    ∷ [])

unfoldable pub p_uname : ⦃lua : Host⦄ {W : Type 0} (os : UtsnameCalls W) → Binding W
unfolding ◌>>=◌ checknargs pusherror pushutsname
p_uname os args = do
  lift (checknargs args 0)
  (r, u) ← call os.uname
  if eq_ℤ r minus_one then pusherror (some (lit "uname")) else pure (pushutsname u ∷ [])
