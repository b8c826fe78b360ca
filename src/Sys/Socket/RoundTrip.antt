-- ===== src/Sys/Socket/RoundTrip.antt =====
-- ext/posix/sys/socket.c: addresses that are pushed as tables and read back.
use luaposix.Base.{
  Bytes, InInt, [], ap, arith, cast_int, cast_int_id, cast_uint, cast_uint-cast_int, cast_uint_pos,
  eq_ℤ, eq_ℤ_iff, false, length, lit, min, minus_one, pos, refl, replicate, some, suc, take-all,
  true, until_zero, zero, ℕ, ℤ, ◌++◌, ◌+◌, ◌-◌, ◌<◌, ◌^◌, ◌∷◌, ◌≡◌, ◌≢◌, ◌≤◌,
}
use luaposix.Helpers.Results.{typed_table}
use luaposix.Lua.{Host, Value, integer, ok, string}
use luaposix.Sys.Socket.{Families, SockAddr, inet, inet6, netlink, packet, unix, unknown}
use luaposix.Sys.Socket.Address.{
  port_of, pushsockaddrinfo, sockaddr_from_lua, string_field, sun_path,
}

abbrev pub family_of : Families → SockAddr → ℤ
family_of af (inet _ _) = af.af_inet
family_of af (inet6 _ _ _ _) = af.af_inet6
family_of af (unix _) = af.af_unix
family_of af (netlink _ _) = af.af_netlink
family_of af (packet _ _) = af.af_packet
family_of af unknown = minus_one

abbrev pub NoZero : Bytes → Type 0
NoZero [] = Unit
NoZero (c ∷ s) = (0 < c) × NoZero s

-- an address as the system holds it: fields in their widths, an IP address that the text form keeps,
-- and a path that is not empty, with zeros behind it
abbrev pub Fits : Families → SockAddr → Type 0
Fits af (inet port a) =
    (port < 2 ^ 16) × (af.inet_pton af.af_inet (af.inet_ntop af.af_inet a) ≡ some a)
Fits af (inet6 port a flowinfo scope_id) =
    (port < 2 ^ 16)
    × (flowinfo < 2 ^ 32)
    × (scope_id < 2 ^ 32)
    × (af.inet_pton af.af_inet6 (af.inet_ntop af.af_inet6 a) ≡ some a)
Fits af (unix sun) =
    (path : Bytes) × (path ≢ [])
    × NoZero path
    × (length path ≤ af.sizeof_sun_path)
    × (sun ≡ path ++ replicate (af.sizeof_sun_path - length path) 0)
Fits af (netlink pid groups) = (pid < 2 ^ 32) × (groups < 2 ^ 32)
Fits af (packet ifindex others) = InInt ifindex
Fits af unknown = ⊥

-- the length that goes with an address
abbrev pub size_of : Families → SockAddr → ℕ
size_of af (inet _ _) = af.sizeof_in
size_of af (inet6 _ _ _ _) = af.sizeof_in6
size_of af (unix sun) = af.sizeof_un - af.sizeof_sun_path + length (until_zero sun)
size_of af (netlink _ _) = af.sizeof_nl
size_of af (packet _ _) = af.sizeof_ll
size_of af unknown = 0

-- what is left of an address: of a sockaddr_ll the index alone, and zeros for the rest
abbrev pub kept : Families → SockAddr → SockAddr
kept af (packet ifindex others) = packet ifindex (replicate (af.sizeof_ll - 6) 0)
kept af sa = sa

-- the families are ints, and differ
pub record Distinct (af : Families) : Type 0 where
  pub inet_int : InInt af.af_inet
  pub inet6_int : InInt af.af_inet6
  pub unix_int : InInt af.af_unix
  pub netlink_int : InInt af.af_netlink
  pub packet_int : InInt af.af_packet
  pub inet6_inet : af.af_inet6 ≢ af.af_inet
  pub unix_inet : af.af_unix ≢ af.af_inet
  pub unix_inet6 : af.af_unix ≢ af.af_inet6
  pub netlink_inet : af.af_netlink ≢ af.af_inet
  pub netlink_inet6 : af.af_netlink ≢ af.af_inet6
  pub netlink_unix : af.af_netlink ≢ af.af_unix
  pub packet_inet : af.af_packet ≢ af.af_inet
  pub packet_inet6 : af.af_packet ≢ af.af_inet6
  pub packet_unix : af.af_packet ≢ af.af_unix
  pub packet_netlink : af.af_packet ≢ af.af_netlink

pub eq_ℤ_ne : (a b : ℤ) → a ≢ b → eq_ℤ a b ≡ false
eq_ℤ_ne a b h = ground (arith, eq_ℤ_iff a b)

pub eq_ℤ_self : (a : ℤ) → eq_ℤ a a ≡ true
eq_ℤ_self a = (eq_ℤ_iff a a).1 refl

pub port_of_pos :
    ⦃lua : Host⦄ (af : Families) (n : ℕ) → n < 2 ^ 16 → port_of af (cast_int (pos n)) ≡ n
unfolding cast_int cast_uint
port_of_pos af n h = ground arith

until_zero-padded : (path : Bytes) (n : ℕ) → NoZero path → until_zero (path ++ replicate n 0) ≡ path
until_zero-padded [] zero h = refl
until_zero-padded [] (suc n) h = refl
until_zero-padded (zero ∷ path) n h = absurd (omega arith)
until_zero-padded (suc c ∷ path) n h = ap (λ s. suc c ∷ s) (until_zero-padded path n h.1)

module _ ⦃lua : Host⦄ (af : Families) (d : Distinct af) where
  inet_round_trip :
      (port a : ℕ)
      → Fits af (inet port a)
      → sockaddr_from_lua af (pushsockaddrinfo af af.af_inet (inet port a) ∷ []) 1
        ≡ ok (some (inet port a, af.sizeof_in))
  unfolding sockaddr_from_lua pushsockaddrinfo
  inet_round_trip port a h =
      rw (cast_int_id af.af_inet d.inet_int, eq_ℤ_self af.af_inet, h.1, port_of_pos af port h.0)

  inet6_round_trip :
      (port a flowinfo scope_id : ℕ)
      → Fits af (inet6 port a flowinfo scope_id)
      → sockaddr_from_lua af
          (pushsockaddrinfo af af.af_inet6 (inet6 port a flowinfo scope_id) ∷ [])
          1
        ≡ ok (some (inet6 port a flowinfo scope_id, af.sizeof_in6))
  unfolding sockaddr_from_lua pushsockaddrinfo
  inet6_round_trip port a flowinfo scope_id h = rw (
    cast_int_id af.af_inet6 d.inet6_int,
    eq_ℤ_ne af.af_inet6 af.af_inet d.inet6_inet,
    eq_ℤ_self af.af_inet6,
    h.3,
    port_of_pos af port h.0,
    cast_uint_pos flowinfo h.1,
    cast_uint_pos scope_id h.2,
  )

  netlink_round_trip :
      (pid groups : ℕ)
      → Fits af (netlink pid groups)
      → sockaddr_from_lua af (pushsockaddrinfo af af.af_netlink (netlink pid groups) ∷ []) 1
        ≡ ok (some (netlink pid groups, af.sizeof_nl))
  unfolding sockaddr_from_lua pushsockaddrinfo
  netlink_round_trip pid groups h = rw (
    cast_int_id af.af_netlink d.netlink_int,
    eq_ℤ_ne af.af_netlink af.af_inet d.netlink_inet,
    eq_ℤ_ne af.af_netlink af.af_inet6 d.netlink_inet6,
    eq_ℤ_ne af.af_netlink af.af_unix d.netlink_unix,
    eq_ℤ_self af.af_netlink,
    cast_uint-cast_int pid h.0,
    cast_uint-cast_int groups h.1,
  )

  packet_round_trip :
      (ifindex : ℤ) (others : Bytes)
      → Fits af (packet ifindex others)
      → sockaddr_from_lua af (pushsockaddrinfo af af.af_packet (packet ifindex others) ∷ []) 1
        ≡ ok (some (packet ifindex (replicate (af.sizeof_ll - 6) 0), af.sizeof_ll))
  unfolding sockaddr_from_lua pushsockaddrinfo
  packet_round_trip ifindex others h = rw (
    cast_int_id af.af_packet d.packet_int,
    eq_ℤ_ne af.af_packet af.af_inet d.packet_inet,
    eq_ℤ_ne af.af_packet af.af_inet6 d.packet_inet6,
    eq_ℤ_ne af.af_packet af.af_unix d.packet_unix,
    eq_ℤ_ne af.af_packet af.af_netlink d.packet_netlink,
    eq_ℤ_self af.af_packet,
    cast_int_id ifindex h,
  )

  sun_path_fits :
      (path : Bytes)
      → length path ≤ af.sizeof_sun_path
      → sun_path af path ≡ path ++ replicate (af.sizeof_sun_path - length path) 0
  sun_path_fits path h =
      let m : min (length path) af.sizeof_sun_path ≡ length path = omega arith in
      rw (m, take-all (length path) path (omega arith))

  abbrev unix_table : Bytes → Value
  unix_table path =
      typed_table (lit "PosixAddrInfo")
        ((lit "family", integer af.af_unix) ∷ (lit "path", string path) ∷ [])

  pushed_path :
      (path : Bytes) (n : ℕ)
      → path ≢ []
      → NoZero path
      → pushsockaddrinfo af af.af_unix (unix (path ++ replicate n 0)) ≡ unix_table path
  unfolding pushsockaddrinfo
  pushed_path [] n ne z = absurd (ne refl)
  pushed_path (c ∷ path) n ne z = rw (until_zero-padded (c ∷ path) n z, string_field)

  read_path :
      (path : Bytes)
      → length path ≤ af.sizeof_sun_path
      → sockaddr_from_lua af (unix_table path ∷ []) 1
        ≡ ok (
            some (
              unix (path ++ replicate (af.sizeof_sun_path - length path) 0),
              af.sizeof_un - af.sizeof_sun_path + length path,
            ))
  unfolding sockaddr_from_lua typed_table
  read_path path l =
      let m : min (length path) af.sizeof_sun_path ≡ length path = omega arith in
      rw (
        cast_int_id af.af_unix d.unix_int,
        eq_ℤ_ne af.af_unix af.af_inet d.unix_inet,
        eq_ℤ_ne af.af_unix af.af_inet6 d.unix_inet6,
        eq_ℤ_self af.af_unix,
        m,
        take-all (length path) path (omega arith),
      )

  unix_round_trip :
      (sun : Bytes)
      → Fits af (unix sun)
      → sockaddr_from_lua af (pushsockaddrinfo af af.af_unix (unix sun) ∷ []) 1
        ≡ ok (some (unix sun, size_of af (unix sun)))
  unix_round_trip sun (path, ne, z, l, e) =
      let n = af.sizeof_sun_path - length path in
      rw (e, pushed_path path n ne z, until_zero-padded path n z) (read_path path l)

  -- Where the families are ints that differ, every address that fits its family, pushed as a table
  -- and read back from the table as the first argument, is the same address, but for AF_PACKET,
  -- where the index is the same and every other member zero. The length is that of the struct; for
  -- AF_UNIX it counts the path up to its first zero.
  pub address_round_trip :
      (sa : SockAddr)
      → Fits af sa
      → sockaddr_from_lua af (pushsockaddrinfo af (family_of af sa) sa ∷ []) 1
        ≡ ok (some (kept af sa, size_of af sa))
  address_round_trip (inet port a) h = inet_round_trip port a h
  address_round_trip (inet6 port a f s) h = inet6_round_trip port a f s h
  address_round_trip (unix sun) h = unix_round_trip sun h
  address_round_trip (netlink pid groups) h = netlink_round_trip pid groups h
  address_round_trip (packet ifindex others) h = packet_round_trip ifindex others h
  address_round_trip unknown h = absurd h
