-- ===== src/Sys/Socket/Bindings.antt =====
-- ext/posix/sys/socket.c: the bindings of sockets, socket options and getaddrinfo excepted.
use luaposix.Base.{
  Bytes, List, Option, [], cast_int, cast_size, eq_ℤ, if◌then◌else◌, is_negative, lit, ltb,
  minus_one, none, pos, pos_part, some, take, ℕ, ℤ, ◌&&◌, ◌∷◌,
}
use luaposix.Helpers.Args.{checkint, checkinteger, checknargs, checkstring}
use luaposix.Helpers.Results.{pusherror, pushresult}
use luaposix.Lua.{
  Binding, Call, Exec, Host, Value, call, integer, lift, pure, string, write_errno, ◌>>=◌, ◌>>◌,
}
use luaposix.Memory.{Allocator, allocate, is_null, release}
use luaposix.Sys.Socket.{Families, SockAddr}
use luaposix.Sys.Socket.Address.{pushsockaddrinfo, sockaddr_from_lua}

pub record SocketCalls (W : Type 0) : Type 0 where
  pub socket : ℤ → ℤ → ℤ → Call W ℤ
  pub socketpair : ℤ → ℤ → ℤ → Call W (ℤ × ℤ × ℤ)
  pub connect : ℤ → SockAddr → ℕ → Call W ℤ
  pub bind : ℤ → SockAddr → ℕ → Call W ℤ
  pub listen : ℤ → ℤ → Call W ℤ
  -- the result, and the peer with its family
  pub accept : ℤ → Call W (ℤ × ℤ × SockAddr)
  pub recv : ℤ → ℕ → Call W (ℤ × Bytes)
  pub recvfrom : ℤ → ℕ → Call W (ℤ × Bytes × ℤ × SockAddr)
  pub send : ℤ → Bytes → Call W ℤ
  pub sendto : ℤ → Bytes → SockAddr → ℕ → Call W ℤ
  pub shutdown : ℤ → ℤ → Call W ℤ
  pub getsockname : ℤ → Call W (ℤ × ℤ × SockAddr)
  pub getpeername : ℤ → Call W (ℤ × ℤ × SockAddr)
  pub if_nametoindex : Bytes → Call W ℕ

module _ ⦃lua : Host⦄ {W : Type 0} (os : SocketCalls W) where
  unfoldable pub p_socket : Binding W
  unfolding ◌>>=◌ checkint checknargs pushresult
  p_socket args = do
    domain ← lift (checkint args 1)
    type ← lift (checkint args 2)
    options ← lift (checkint args 3)
    lift (checknargs args 3)
    r ← call (os.socket domain type options)
    pushresult r none

  unfoldable pub p_socketpair : Binding W
  unfolding ◌>>=◌ checkint checknargs pusherror
  p_socketpair args = do
    domain ← lift (checkint args 1)
    socktype ← lift (checkint args 2)
    options ← lift (checkint args 3)
    lift (checknargs args 3)
    (rc, first, second) ← call (os.socketpair domain socktype options)
    if is_negative rc
        then pusherror (some (lit "socketpair"))
        else pure (integer first ∷ integer second ∷ [])

  unfoldable pub p_listen : Binding W
  unfolding ◌>>=◌ checkint checknargs pushresult
  p_listen args = do
    fd ← lift (checkint args 1)
    backlog ← lift (checkint args 2)
    lift (checknargs args 2)
    r ← call (os.listen fd backlog)
    pushresult r (some (lit "listen"))

  -- from the allocation on
  unfoldable pub recv_block : Allocator W → ℤ → ℕ → Exec W (List Value)
  unfolding ◌>>=◌ pusherror
  recv_block mem fd count = do
    write_errno (pos 0)
    buf ← allocate mem count
    if is_null buf && ltb 0 count then pusherror (some (lit "lalloc")) else do
      (ret, bytes) ← call (os.recv fd count)
      release mem buf count
      if is_negative ret then pusherror none else pure (string (take (pos_part ret) bytes) ∷ [])

  unfoldable pub p_recv : Allocator W → Binding W
  p_recv mem args = do
    fd ← lift (checkint args 1)
    count ← lift (checkinteger args 2)
    lift (checknargs args 2)
    recv_block mem fd (cast_size count)

  unfoldable pub p_send : Binding W
  unfolding ◌>>=◌ checkint checkstring checknargs pushresult
  p_send args = do
    fd ← lift (checkint args 1)
    buf ← lift (checkstring args 2)
    lift (checknargs args 2)
    r ← call (os.send fd buf)
    pushresult r (some (lit "send"))

  unfoldable pub p_shutdown : Binding W
  unfolding ◌>>=◌ checkint checknargs pushresult
  p_shutdown args = do
    fd ← lift (checkint args 1)
    how ← lift (checkint args 2)
    lift (checknargs args 2)
    r ← call (os.shutdown fd how)
    pushresult r (some (lit "shutdown"))

  unfoldable pub p_if_nametoindex : Binding W
  unfolding ◌>>=◌ checkstring checknargs pusherror
  p_if_nametoindex args = do
    name ← lift (checkstring args 1)
    lift (checknargs args 1)
    n ← call (os.if_nametoindex name)
    let ifindex = cast_int (pos n)
    if eq_ℤ ifindex (pos 0)
        then pusherror (some (lit "if_nametoindex"))
        else pure (integer ifindex ∷ [])

module _ ⦃lua : Host⦄ {W : Type 0} (os : SocketCalls W) (af : Families) where
  -- what follows sockaddr_from_lua: the error is made from errno, which it has not set
  abbrev pub with_address :
      Bytes → Option (SockAddr × ℕ) → (SockAddr → ℕ → Exec W (List Value)) → Exec W (List Value)
  with_address message none k = pusherror (some message)
  with_address message (some (sa, salen)) k = k sa salen

  unfoldable pub p_connect : Binding W
  unfolding ◌>>=◌ checkint checknargs sockaddr_from_lua pusherror pushresult
  p_connect args = do
    fd ← lift (checkint args 1)
    lift (checknargs args 2)
    sa ← lift (sockaddr_from_lua af args 2)
    with_address (lit "not a valid IPv4 or IPv6 address argument") sa
        λ sa salen. do r ← call (os.connect fd sa salen); pushresult r (some (lit "connect"))

  unfoldable pub p_bind : Binding W
  unfolding ◌>>=◌ checkint checknargs sockaddr_from_lua pusherror pushresult
  p_bind args = do
    lift (checknargs args 2)
    fd ← lift (checkint args 1)
    sa ← lift (sockaddr_from_lua af args 2)
    with_address (lit "not a valid IPv4 or IPv6 argument") sa
        λ sa salen. do r ← call (os.bind fd sa salen); pushresult r (some (lit "bind"))

  unfoldable pub p_sendto : Binding W
  unfolding ◌>>=◌ checkint checkstring checknargs sockaddr_from_lua pusherror pushresult
  p_sendto args = do
    fd ← lift (checkint args 1)
    buf ← lift (checkstring args 2)
    lift (checknargs args 3)
    sa ← lift (sockaddr_from_lua af args 3)
    with_address (lit "not a valid IPv4 or IPv6 argument") sa
        λ sa salen. do r ← call (os.sendto fd buf sa salen); pushresult r (some (lit "sendto"))

  unfoldable pub p_accept : Binding W
  unfolding ◌>>=◌ checkint checknargs pusherror pushsockaddrinfo
  p_accept args = do
    fd ← lift (checkint args 1)
    lift (checknargs args 1)
    (fd_client, family, sa) ← call (os.accept fd)
    if eq_ℤ fd_client minus_one
        then pusherror (some (lit "accept"))
        else pure (integer fd_client ∷ pushsockaddrinfo af family sa ∷ [])

  unfoldable pub recvfrom_block : Allocator W → ℤ → ℕ → Exec W (List Value)
  unfolding ◌>>=◌ pusherror pushsockaddrinfo
  recvfrom_block mem fd count = do
    write_errno (pos 0)
    buf ← allocate mem count
    if is_null buf && ltb 0 count then pusherror (some (lit "lalloc")) else do
      (ret, bytes, family, sa) ← call (os.recvfrom fd count)
      release mem buf count
      if is_negative ret
          then pusherror none
          else pure (string (take (pos_part ret) bytes) ∷ pushsockaddrinfo af family sa ∷ [])

  unfoldable pub p_recvfrom : Allocator W → Binding W
  p_recvfrom mem args = do
    fd ← lift (checkint args 1)
    count ← lift (checkinteger args 2)
    lift (checknargs args 2)
    recvfrom_block mem fd (cast_size count)

  unfoldable pub p_getsockname : Binding W
  unfolding ◌>>=◌ checkint checknargs pusherror pushsockaddrinfo
  p_getsockname args = do
    fd ← lift (checkint args 1)
    lift (checknargs args 1)
    (r, family, sa) ← call (os.getsockname fd)
    if eq_ℤ r (pos 0)
        then pure (pushsockaddrinfo af family sa ∷ [])
        else pusherror (some (lit "getsockname"))

  unfoldable pub p_getpeername : Binding W
  unfolding ◌>>=◌ checkint checknargs pusherror pushsockaddrinfo
  p_getpeername args = do
    fd ← lift (checkint args 1)
    lift (checknargs args 1)
    (r, family, sa) ← call (os.getpeername fd)
    if eq_ℤ r (pos 0)
        then pure (pushsockaddrinfo af family sa ∷ [])
        else pusherror (some (lit "getpeername"))
