-- ===== src/Sys/Socket/Lookup.antt =====
-- ext/posix/sys/socket.c: Pgetaddrinfo, whose arguments and results are in Resolve.
use luaposix.Base.{[], eq_ℤ, if◌then◌else◌, none, not, pos, ◌∷◌}
use luaposix.Helpers.Args.{checknargs, optstring}
use luaposix.Lua.{Binding, Host, call, integer, lift, nil, pure, string, table, ◌>>=◌, ◌>>◌}
use luaposix.Sys.Socket.{Families}
use luaposix.Sys.Socket.Resolve.{ResolveCalls, address_list, read_hints, read_service}

module _ ⦃lua : Host⦄ {W : Type 0} (os : ResolveCalls W) (af : Families) where
  unfoldable pub p_getaddrinfo : Binding W
  unfolding ◌>>=◌ optstring checknargs read_service read_hints address_list
  p_getaddrinfo args = do
    host ← lift (optstring args 1 none)
    lift (checknargs args 3)
    service ← lift (read_service args host)
    hints ← lift (read_hints os args)
    (r, res) ← call (os.getaddrinfo host service hints)
    if not (eq_ℤ r (pos 0))
        then pure (nil ∷ string (os.gai_strerror r) ∷ integer r ∷ [])
        else do call (os.freeaddrinfo res); pure (table [] (address_list af 1 res) ∷ [])
