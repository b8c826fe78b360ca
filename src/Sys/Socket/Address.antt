-- ===== src/Sys/Socket/Address.antt =====
-- ext/posix/sys/socket.c: socket addresses to and from Lua tables.
use luaposix.Base.{
  Bytes, List, Option, [], cast_uint, eq_ℤ, if◌then◌else◌, length, lit, min, none, pos, replicate,
  some, take, until_zero, ℕ, ℤ, ◌%◌, ◌++◌, ◌+◌, ◌-◌, ◌^◌, ◌∷◌,
}
use luaposix.Helpers.Args.{arg, argerror, lua_l_checktype}
use luaposix.Helpers.Fields.{checkfieldnames, checkintfield, checklstringfield, optintegerfield}
use luaposix.Helpers.Results.{typed_table}
use luaposix.Lua.{Args, Host, LuaType, Outcome, Value, integer, ok, string}
use luaposix.Lua.Checks.{◌>>=◌, ◌>>◌}
use luaposix.Posix.LegacyTime.{index}
use luaposix.Sys.Socket.{Families, SockAddr, inet, inet6, netlink, packet, unix, unknown}

abbrev pub inet4_fields : List Bytes
inet4_fields =
    lit "family" ∷ lit "port" ∷ lit "addr" ∷ lit "socktype" ∷ lit "canonname" ∷ lit "protocol" ∷ []

abbrev pub inet6_fields : List Bytes
inet6_fields = lit "flowinfo" ∷ lit "scope_id" ∷ inet4_fields

abbrev pub unix_fields : List Bytes
unix_fields = lit "family" ∷ lit "path" ∷ []

abbrev pub netlink_fields : List Bytes
netlink_fields = lit "family" ∷ lit "pid" ∷ lit "groups" ∷ []

abbrev pub packet_fields : List Bytes
packet_fields = lit "family" ∷ lit "ifindex" ∷ []

-- pushlstringfield: an empty string sets no field
abbrev pub string_field : Bytes → Bytes → List (Bytes × Value)
string_field k [] = []
string_field k (c ∷ s) = (k, string (c ∷ s)) ∷ []

module _ (af : Families) where
  -- the fields of each family
  abbrev pub address_fields : ℤ → SockAddr → List (Bytes × Value)
  address_fields family (inet port addr) =
      (lit "port", integer (pos port)) ∷ (lit "addr", string (af.inet_ntop family addr)) ∷ []
  address_fields family (inet6 port addr flowinfo scope_id) =
      (lit "port", integer (pos port))
      ∷ (lit "addr", string (af.inet_ntop family addr))
      ∷ (lit "flowinfo", integer (pos flowinfo))
      ∷ (lit "scope_id", integer (pos scope_id))
      ∷ []
  address_fields family (unix path) = string_field (lit "path") (until_zero path)
  address_fields family (netlink pid groups) =
      (lit "pid", integer (pos pid)) ∷ (lit "groups", integer (pos groups)) ∷ []
  address_fields family (packet ifindex others) = (lit "ifindex", integer ifindex) ∷ []
  address_fields family unknown = []

  unfoldable pub pushsockaddrinfo : ℤ → SockAddr → Value
  unfolding typed_table
  pushsockaddrinfo family sa =
      typed_table (lit "PosixAddrInfo") ((lit "family", integer family) ∷ address_fields family sa)

  module _ ⦃lua : Host⦄ where
    -- htons takes 16 bits of the int
    abbrev pub port_of : ℤ → ℕ
    port_of port = cast_uint port % 2 ^ 16

    unfoldable pub inet_from : Value → ℕ → Outcome (Option (SockAddr × ℕ))
    unfolding checkintfield checklstringfield checkfieldnames
    inet_from t index = do
      port ← checkintfield t index (lit "port")
      addr ← checklstringfield t index (lit "addr")
      checkfieldnames t index inet4_fields
      elim (af.inet_pton af.af_inet addr) [
        | none ↦ ok none
        | some a ↦ ok (some (inet (port_of port) a, af.sizeof_in))
      ]

    unfoldable pub inet6_from : Value → ℕ → Outcome (Option (SockAddr × ℕ))
    unfolding checkintfield checklstringfield optintegerfield checkfieldnames
    inet6_from t index = do
      port ← checkintfield t index (lit "port")
      addr ← checklstringfield t index (lit "addr")
      flowinfo ← optintegerfield t index (lit "flowinfo") (pos 0)
      scope_id ← optintegerfield t index (lit "scope_id") (pos 0)
      checkfieldnames t index inet6_fields
      elim (af.inet_pton af.af_inet6 addr) [
        | none ↦ ok none
        | some a ↦
            ok (
              some
                (inet6 (port_of port) a (cast_uint flowinfo) (cast_uint scope_id), af.sizeof_in6))
      ]

    -- memset, and memcpy of as much of the path as the array holds
    abbrev pub sun_path : Bytes → Bytes
    sun_path path =
        let pathlen = min (length path) af.sizeof_sun_path in
        take pathlen path ++ replicate (af.sizeof_sun_path - pathlen) 0

    unfoldable pub unix_from : Value → ℕ → Outcome (Option (SockAddr × ℕ))
    unfolding checklstringfield checkfieldnames
    unix_from t index = do
      path ← checklstringfield t index (lit "path")
      checkfieldnames t index unix_fields
      ok (
          some (
            unix (sun_path path),
            af.sizeof_un - af.sizeof_sun_path + min (length path) af.sizeof_sun_path,
          ))

    unfoldable pub netlink_from : Value → ℕ → Outcome (Option (SockAddr × ℕ))
    unfolding checkintfield checkfieldnames
    netlink_from t index = do
      pid ← checkintfield t index (lit "pid")
      groups ← checkintfield t index (lit "groups")
      checkfieldnames t index netlink_fields
      ok (some (netlink (cast_uint pid) (cast_uint groups), af.sizeof_nl))

    -- memset: all but sll_family and sll_ifindex, which have 2 and 4 bytes
    abbrev pub other_members : ℕ → Bytes
    other_members size = replicate (size - 6) 0

    unfoldable pub packet_from : Value → ℕ → Outcome (Option (SockAddr × ℕ))
    unfolding checkintfield checkfieldnames
    packet_from t index = do
      ifindex ← checkintfield t index (lit "ifindex")
      checkfieldnames t index packet_fields
      ok (some (packet ifindex (other_members af.sizeof_ll), af.sizeof_ll))

    -- `none` is the result -1
    unfoldable pub sockaddr_from_lua : Args → ℕ → Outcome (Option (SockAddr × ℕ))
    unfolding lua_l_checktype checkintfield inet_from inet6_from unix_from netlink_from packet_from
    sockaddr_from_lua args index = do
      lua_l_checktype args index LuaType.ttable
      let t = arg args index
      family ← checkintfield t index (lit "family")
      if eq_ℤ family af.af_inet
          then inet_from t index
          else if eq_ℤ family af.af_inet6
          then inet6_from t index
          else if eq_ℤ family af.af_unix
          then unix_from t index
          else if eq_ℤ family af.af_netlink
          then netlink_from t index
          else if eq_ℤ family af.af_packet
          then packet_from t index
          else argerror index (lit "unsupported family type " ++ lua.format_int family)
