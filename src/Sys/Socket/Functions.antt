-- ===== src/Sys/Socket/Functions.antt =====
-- ext/posix/sys/socket.c: the function table, and the checks of arguments.
use luaposix.Base.{Bytes, Every, List, Option, [], done, lit, none, some, ℕ, ◌∷◌, ◌▹◌}
use luaposix.Helpers.Validation.{
  Clean, Clean-Total, Total, Total-call, Total-pure, Total-pusherror, validation_rules,
}
use luaposix.Lua.{Args, Binding, Exec, Host, Value}
use luaposix.Memory.{Allocator, release}
use luaposix.Sys.Socket.{Families, SockAddr}
use luaposix.Sys.Socket.Bindings.{
  SocketCalls, p_accept, p_bind, p_connect, p_getpeername, p_getsockname, p_if_nametoindex,
  p_listen, p_recv, p_recvfrom, p_send, p_sendto, p_shutdown, p_socket, p_socketpair, recv_block,
  recvfrom_block, with_address,
}
use luaposix.Sys.Socket.Lookup.{p_getaddrinfo}
use luaposix.Sys.Socket.Options.{OptionCalls}
use luaposix.Sys.Socket.Resolve.{ResolveCalls}
use luaposix.Sys.Socket.Sockopt.{p_getsockopt, p_setsockopt}

module _ ⦃lua : Host⦄ {W : Type 0} (os : SocketCalls W) (options : OptionCalls W)
    (resolver : ResolveCalls W) (af : Families) (mem : Allocator W) where
  unfoldable pub posix_sys_socket_fns : List (Bytes × Binding W)
  posix_sys_socket_fns =
      (lit "socket", p_socket os)
      ∷ (lit "socketpair", p_socketpair os)
      ∷ (lit "getaddrinfo", p_getaddrinfo resolver af)
      ∷ (lit "connect", p_connect os af)
      ∷ (lit "bind", p_bind os af)
      ∷ (lit "listen", p_listen os)
      ∷ (lit "accept", p_accept os af)
      ∷ (lit "recv", p_recv os mem)
      ∷ (lit "recvfrom", p_recvfrom os af mem)
      ∷ (lit "send", p_send os)
      ∷ (lit "sendto", p_sendto os af)
      ∷ (lit "shutdown", p_shutdown os)
      ∷ (lit "setsockopt", p_setsockopt options)
      ∷ (lit "getsockopt", p_getsockopt options)
      ∷ (lit "getsockname", p_getsockname os af)
      ∷ (lit "getpeername", p_getpeername os af)
      ∷ (lit "if_nametoindex", p_if_nametoindex os)
      ∷ []

  release-Total : (block : Option ℕ) (n : ℕ) → Total (release mem block n)
  release-Total none n = Total-pure tt
  release-Total (some b) n = Total-call (mem.free b n)

  with_address-Clean :
      (message : Bytes) (sa : Option (SockAddr × ℕ)) (k : SockAddr → ℕ → Exec W (List Value))
      → ((a : SockAddr) (n : ℕ) → Clean (k a n))
      → Clean (with_address os af message sa k)
  with_address-Clean message none k h = Clean-Total _ (Total-pusherror (some message))
  with_address-Clean message (some (a, n)) k h = h a n

  socket-Clean : (args : Args) → Clean (p_socket os args)
  unfolding p_socket
  socket-Clean args = search validation_rules depth 16

  socketpair-Clean : (args : Args) → Clean (p_socketpair os args)
  unfolding p_socketpair
  socketpair-Clean args = search validation_rules depth 16

  getaddrinfo-Clean : (args : Args) → Clean (p_getaddrinfo resolver af args)
  unfolding p_getaddrinfo
  getaddrinfo-Clean args = search validation_rules depth 16

  connect-Clean : (args : Args) → Clean (p_connect os af args)
  unfolding p_connect
  connect-Clean args = search (validation_rules, with_address-Clean) depth 16

  bind-Clean : (args : Args) → Clean (p_bind os af args)
  unfolding p_bind
  bind-Clean args = search (validation_rules, with_address-Clean) depth 16

  listen-Clean : (args : Args) → Clean (p_listen os args)
  unfolding p_listen
  listen-Clean args = search validation_rules depth 16

  accept-Clean : (args : Args) → Clean (p_accept os af args)
  unfolding p_accept
  accept-Clean args = search validation_rules depth 16

  recv-Clean : (args : Args) → Clean (p_recv os mem args)
  unfolding p_recv recv_block
  recv-Clean args = search (validation_rules, release-Total) depth 16

  recvfrom-Clean : (args : Args) → Clean (p_recvfrom os af mem args)
  unfolding p_recvfrom recvfrom_block
  recvfrom-Clean args = search (validation_rules, release-Total) depth 16

  send-Clean : (args : Args) → Clean (p_send os args)
  unfolding p_send
  send-Clean args = search validation_rules depth 16

  sendto-Clean : (args : Args) → Clean (p_sendto os af args)
  unfolding p_sendto
  sendto-Clean args = search (validation_rules, with_address-Clean) depth 16

  shutdown-Clean : (args : Args) → Clean (p_shutdown os args)
  unfolding p_shutdown
  shutdown-Clean args = search validation_rules depth 16

  setsockopt-Clean : (args : Args) → Clean (p_setsockopt options args)
  unfolding p_setsockopt
  setsockopt-Clean args = search validation_rules depth 16

  getsockopt-Clean : (args : Args) → Clean (p_getsockopt options args)
  unfolding p_getsockopt
  getsockopt-Clean args = search validation_rules depth 16

  getsockname-Clean : (args : Args) → Clean (p_getsockname os af args)
  unfolding p_getsockname
  getsockname-Clean args = search validation_rules depth 16

  getpeername-Clean : (args : Args) → Clean (p_getpeername os af args)
  unfolding p_getpeername
  getpeername-Clean args = search validation_rules depth 16

  if_nametoindex-Clean : (args : Args) → Clean (p_if_nametoindex os args)
  unfolding p_if_nametoindex
  if_nametoindex-Clean args = search validation_rules depth 16

  -- For every function of posix.sys.socket: where a call from Lua raises an error, the process, errno
  -- included, is as it was before the call.
  pub posix_sys_socket_fns-Clean :
      Every (λ (f : Bytes × Binding W). (args : Args) → Clean (f.1 args)) posix_sys_socket_fns
  unfolding posix_sys_socket_fns
  posix_sys_socket_fns-Clean =
      socket-Clean ▹ socketpair-Clean ▹ getaddrinfo-Clean ▹ connect-Clean ▹ bind-Clean
      ▹ listen-Clean ▹ accept-Clean ▹ recv-Clean ▹ recvfrom-Clean ▹ send-Clean ▹ sendto-Clean
      ▹ shutdown-Clean ▹ setsockopt-Clean ▹ getsockopt-Clean ▹ getsockname-Clean ▹ getpeername-Clean
      ▹ if_nametoindex-Clean ▹ done
