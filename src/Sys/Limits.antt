-- ===== src/Sys/Limits.antt =====
-- ext/posix/sys/resource.c: Pgetrlimit and Psetrlimit.
use luaposix.Base.{[], if◌then◌else◌, is_negative, lit, some, ◌∷◌}
use luaposix.Helpers.Args.{arg, checkint, checknargs, lua_l_checktype}
use luaposix.Helpers.Results.{pusherror, pushresult}
use luaposix.Lua.{Binding, Host, LuaType, call, lift, pure, ◌>>=◌, ◌>>◌}
use luaposix.Sys.Resource.{ResourceCalls, pushrlimit, read_limits}

module _ ⦃lua : Host⦄ {W : Type 0} (os : ResourceCalls W) where
  unfoldable pub p_getrlimit : Binding W
  unfolding ◌>>=◌ checkint checknargs pusherror pushrlimit
  p_getrlimit args = do
    lift (checknargs args 1)
    resource ← lift (checkint args 1)
    (r, lim) ← call (os.getrlimit resource)
    if is_negative r then pusherror (some (lit "getrlimit")) else pure (pushrlimit lim ∷ [])

  unfoldable pub p_setrlimit : Binding W
  unfolding ◌>>=◌ checkint checknargs lua_l_checktype read_limits pushresult
  p_setrlimit args = do
    rid ← lift (checkint args 1)
    lift (lua_l_checktype args 2 LuaType.ttable)
    lift (checknargs args 2)
    lim ← lift (read_limits (arg args 2))
    r ← call (os.setrlimit rid lim)
    pushresult r (some (lit "setrlimit"))
