-- ===== src/Sys/Socket/Sockopt.antt =====
-- ext/posix/sys/socket.c: the bindings of socket options.
use luaposix.Base.{[], eq_ℤ, if◌then◌else◌, lit, minus_one, some, ◌∷◌}
use luaposix.Helpers.Args.{checkint, checknargs}
use luaposix.Helpers.Results.{pusherror, pushresult}
use luaposix.Lua.{Binding, Host, call, lift, pure, ◌>>=◌, ◌>>◌}
use luaposix.Sys.Socket.Options.{OptionCalls, option_slot, option_value, pushoption}

module _ ⦃lua : Host⦄ {W : Type 0} (os : OptionCalls W) where
  unfoldable pub p_setsockopt : Binding W
  unfolding ◌>>=◌ checkint option_value pushresult
  p_setsockopt args = do
    fd ← lift (checkint args 1)
    level ← lift (checkint args 2)
    optname ← lift (checkint args 3)
    (val, len) ← lift (option_value os level optname args)
    r ← call (os.setsockopt fd level optname val len)
    pushresult r (some (lit "setsockopt"))

  unfoldable pub p_getsockopt : Binding W
  unfolding ◌>>=◌ checkint checknargs pusherror pushoption
  p_getsockopt args = do
    fd ← lift (checkint args 1)
    level ← lift (checkint args 2)
    optname ← lift (checkint args 3)
    lift (checknargs args 3)
    let slot = option_slot os level optname
    (r, val, len) ← call (os.getsockopt fd level optname slot.0 slot.1)
    if eq_ℤ r minus_one
        then pusherror (some (lit "getsockopt"))
        else pure (pushoption os val len ∷ [])
