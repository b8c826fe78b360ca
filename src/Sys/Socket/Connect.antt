-- ===== src/Sys/Socket/Connect.antt =====
-- ext/posix/sys/socket.c: results of Pgetaddrinfo as arguments of Pconnect.
use luaposix.Base.{
  Bytes, Option, [], cast_int, cast_int_id, cast_uint_pos, lit, none, some, ℕ, ℤ, ◌∷◌, ◌≡◌,
}
use luaposix.Helpers.Results.{pushresult}
use luaposix.Lua.{Host, Machine, Value, call, integer, ok, ◌>>=◌}
use luaposix.Sys.Socket.{Families, SockAddr, inet, inet6, netlink, packet, unix, unknown}
use luaposix.Sys.Socket.Address.{sockaddr_from_lua}
use luaposix.Sys.Socket.Bindings.{SocketCalls, p_connect}
use luaposix.Sys.Socket.Resolve.{AddrInfo, pushaddrinfo}
use luaposix.Sys.Socket.RoundTrip.{
  Distinct, Fits, eq_ℤ_ne, eq_ℤ_self, family_of, port_of_pos, size_of,
}

abbrev pub IsInternet : SockAddr → Type 0
IsInternet (inet _ _) = Unit {0}
IsInternet (inet6 _ _ _ _) = Unit {0}
IsInternet _ = ⊥

-- a result whose family is that of its address
abbrev pub result_for : Families → SockAddr → ℤ → ℤ → Option Bytes → AddrInfo
result_for af sa socktype protocol canonname = record {
  ai_family = family_of af sa;
  ai_addr = sa;
  ai_socktype = socktype;
  ai_canonname = canonname;
  ai_protocol = protocol;
}

module _ ⦃lua : Host⦄ (af : Families) (d : Distinct af) where
  read_inet :
      (fd : Value) (port a : ℕ) (socktype protocol : ℤ) (canonname : Option Bytes)
      → Fits af (inet port a)
      → sockaddr_from_lua af
          (fd ∷ pushaddrinfo af (result_for af (inet port a) socktype protocol canonname) ∷ [])
          2
        ≡ ok (some (inet port a, af.sizeof_in))
  unfolding sockaddr_from_lua pushaddrinfo
  read_inet fd port a socktype protocol none h =
      rw (cast_int_id af.af_inet d.inet_int, eq_ℤ_self af.af_inet, h.1, port_of_pos af port h.0)
  read_inet fd port a socktype protocol (some name) h =
      rw (cast_int_id af.af_inet d.inet_int, eq_ℤ_self af.af_inet, h.1, port_of_pos af port h.0)

  read_inet6 :
      (fd : Value) (port a flowinfo scope_id : ℕ) (socktype protocol : ℤ) (canonname : Option Bytes)
      → Fits af (inet6 port a flowinfo scope_id)
      → sockaddr_from_lua af
          (fd
            ∷ pushaddrinfo af
                (result_for af (inet6 port a flowinfo scope_id) socktype protocol canonname)
            ∷ [])
          2
        ≡ ok (some (inet6 port a flowinfo scope_id, af.sizeof_in6))
  unfolding sockaddr_from_lua pushaddrinfo
  read_inet6 fd port a flowinfo scope_id socktype protocol none h = rw (
    cast_int_id af.af_inet6 d.inet6_int,
    eq_ℤ_ne af.af_inet6 af.af_inet d.inet6_inet,
    eq_ℤ_self af.af_inet6,
    h.3,
    port_of_pos af port h.0,
    cast_uint_pos flowinfo h.1,
    cast_uint_pos scope_id h.2,
  )
  read_inet6 fd port a flowinfo scope_id socktype protocol (some name) h = rw (
    cast_int_id af.af_inet6 d.inet6_int,
    eq_ℤ_ne af.af_inet6 af.af_inet d.inet6_inet,
    eq_ℤ_self af.af_inet6,
    h.3,
    port_of_pos af port h.0,
    cast_uint_pos flowinfo h.1,
    cast_uint_pos scope_id h.2,
  )

  read_resolved :
      (fd : Value) (sa : SockAddr) (socktype protocol : ℤ) (canonname : Option Bytes)
      → IsInternet sa
      → Fits af sa
      → sockaddr_from_lua af
          (fd ∷ pushaddrinfo af (result_for af sa socktype protocol canonname) ∷ [])
          2
        ≡ ok (some (sa, size_of af sa))
  read_resolved fd (inet port a) t p c i h = read_inet fd port a t p c h
  read_resolved fd (inet6 port a f s) t p c i h = read_inet6 fd port a f s t p c h
  read_resolved fd (unix _) t p c i h = absurd i
  read_resolved fd (netlink _ _) t p c i h = absurd i
  read_resolved fd (packet _ _) t p c i h = absurd i
  read_resolved fd unknown t p c i h = absurd i

  -- An IPv4 or IPv6 result of getaddrinfo that fits its family, whose table has fields that no
  -- address has, is taken by connect as it stands: the system is asked to connect to exactly the
  -- address that was found.
  pub connect_to_resolved :
      {W : Type 0} (os : SocketCalls W) (fd : ℤ) (sa : SockAddr) (socktype protocol : ℤ)
      (canonname : Option Bytes) (w : Machine W)
      → IsInternet sa
      → Fits af sa
      → p_connect os af
          (integer fd ∷ pushaddrinfo af (result_for af sa socktype protocol canonname) ∷ [])
          w
        ≡ (call (os.connect (cast_int fd) sa (size_of af sa)) >>= λ r.
              pushresult r (some (lit "connect")))
            w
  unfolding ◌>>=◌ p_connect
  connect_to_resolved os fd sa socktype protocol canonname w i h =
      rw (read_resolved (integer fd) sa socktype protocol canonname i h)
