-- ===== src/Tests/Sockets.antt =====
-- The theorems on the bindings of sockets, each at one call.
use luaposix.Base.{Bytes, Every, [], arith, cast_int, lit, pos, refl, some, true, ◌∷◌, ◌≡◌, ◌⊎◌}
use luaposix.Helpers.Args.{checkinteger, checknargs, expectinteger}
use luaposix.Helpers.Results.{pushresult}
use luaposix.Helpers.Validation.{Clean}
use luaposix.Lua.{Args, Binding, call, integer, ok, ◌>>=◌}
use luaposix.RaisedErrors.{functions-Clean}
use luaposix.Sys.Socket.{inet}
use luaposix.Sys.Socket.Bindings.{p_connect}
use luaposix.Sys.Socket.Connect.{connect_to_resolved, result_for}
use luaposix.Sys.Socket.Functions.{posix_sys_socket_fns}
use luaposix.Sys.Socket.Options.{option_value, socket_value, timeval}
use luaposix.Sys.Socket.Resolve.{pushaddrinfo}
use luaposix.Sys.Stat.{posix_sys_stat_fns}
use luaposix.Tests.Fixtures.{
  Ledger, calm_options, calm_resolver, calm_sockets, calm_unistd, idle, linux, linux-Distinct,
  lua54, no_options, stack_allocator,
}
use luaposix.Tests.Processes.{calm_stat}
use luaposix.Unistd.Functions.{posix_unistd_fns}
use luaposix.Unistd.Validation.{calls_before_its_checks}

connect_to_resolved_example :
    p_connect ⦃lua = lua54⦄ calm_sockets linux
      (integer (pos 3)
        ∷ pushaddrinfo linux
            (result_for linux (inet 80 9) (pos 1) (pos 6) (some (lit "www.lua.org")))
        ∷ [])
      idle
    ≡ (call (calm_sockets.connect (cast_int (pos 3)) (inet 80 9) 16) >>= λ r.
          pushresult ⦃lua = lua54⦄ r (some (lit "connect")))
        idle
connect_to_resolved_example =
    connect_to_resolved ⦃lua = lua54⦄ linux linux-Distinct calm_sockets (pos 3) (inet 80 9) (pos 1)
      (pos 6) (some (lit "www.lua.org")) idle tt (omega arith, refl)

-- a timeout of two seconds, SO_RCVTIMEO of SOL_SOCKET
abbrev timeout_args : Args
timeout_args =
    integer (pos 0) ∷ integer (pos 1) ∷ integer (pos 20) ∷ integer (pos 2) ∷ integer (pos 0) ∷ []

timeout_value :
    option_value ⦃lua = lua54⦄ {W = Ledger} calm_options (pos 1) (pos 20) timeout_args
    ≡ ok (timeval (pos 2) (pos 0), 16)
unfolding option_value socket_value checknargs checkinteger expectinteger
timeout_value = refl

functions-Clean_example :
    Every
      (λ (f : Bytes × Binding Ledger).
        (calls_before_its_checks f.0 ≡ true) ⊎ ((args : Args) → Clean (f.1 args)))
      (posix_unistd_fns ⦃lua = lua54⦄ calm_unistd stack_allocator no_options)
    × Every
        (λ (f : Bytes × Binding Ledger). (args : Args) → Clean (f.1 args))
        (posix_sys_socket_fns ⦃lua = lua54⦄ calm_sockets calm_options calm_resolver linux
          stack_allocator)
    × Every
        (λ (f : Bytes × Binding Ledger). (args : Args) → Clean (f.1 args))
        (posix_sys_stat_fns ⦃lua = lua54⦄ calm_stat)
functions-Clean_example =
    functions-Clean ⦃lua = lua54⦄ calm_unistd no_options calm_sockets calm_options calm_resolver
      linux stack_allocator calm_stat
