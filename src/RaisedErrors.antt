-- ===== src/RaisedErrors.antt =====
-- ext/posix/unistd.c, sys/socket.c and sys/stat.c: the functions of the modules, where a call raises an
-- error.
use luaposix.Base.{Bytes, Every, true, ◌≡◌, ◌⊎◌}
use luaposix.Helpers.Validation.{Clean}
use luaposix.Lua.{Args, Binding, Host}
use luaposix.Memory.{Allocator}
use luaposix.Sys.Socket.{Families}
use luaposix.Sys.Socket.Bindings.{SocketCalls}
use luaposix.Sys.Socket.Functions.{posix_sys_socket_fns, posix_sys_socket_fns-Clean}
use luaposix.Sys.Socket.Options.{OptionCalls}
use luaposix.Sys.Socket.Resolve.{ResolveCalls}
use luaposix.Sys.Stat.{StatCalls, posix_sys_stat_fns, posix_sys_stat_fns-Clean}
use luaposix.Unistd.Calls.{UnistdCalls}
use luaposix.Unistd.Functions.{posix_unistd_fns}
use luaposix.Unistd.Getopt.{GetoptCalls}
use luaposix.Unistd.Validation.{calls_before_its_checks, posix_unistd_fns-Clean}

module _ ⦃lua : Host⦄ {W : Type 0} where
  -- For every function of posix.unistd except chown, lchown, getgroups, getcwd and getopt, of
  -- posix.sys.socket and of posix.sys.stat: where a call from Lua raises an error, the process, errno
  -- included, is as it was before the call.
  pub functions-Clean :
      (unistd : UnistdCalls W) (opts : GetoptCalls W) (sockets : SocketCalls W)
      (options : OptionCalls W) (resolver : ResolveCalls W) (families : Families)
      (mem : Allocator W) (stat : StatCalls W)
      → Every
          (λ (f : Bytes × Binding W).
            (calls_before_its_checks f.0 ≡ true) ⊎ ((args : Args) → Clean (f.1 args)))
          (posix_unistd_fns unistd mem opts)
        × Every
            (λ (f : Bytes × Binding W). (args : Args) → Clean (f.1 args))
            (posix_sys_socket_fns sockets options resolver families mem)
        × Every
            (λ (f : Bytes × Binding W). (args : Args) → Clean (f.1 args))
            (posix_sys_stat_fns stat)
  functions-Clean unistd opts sockets options resolver families mem stat = (
    posix_unistd_fns-Clean unistd mem opts,
    posix_sys_socket_fns-Clean sockets options resolver families mem,
    posix_sys_stat_fns-Clean stat,
  )
