-- ===== src/Sys/Socket.antt =====
-- ext/posix/sys/socket.c.
pub mod Address
pub mod Options
pub mod Resolve
pub mod Lookup
pub mod Sockopt
pub mod Bindings
pub mod RoundTrip
pub mod Connect
pub mod Balance
pub mod OptionKinds
pub mod Functions
use luaposix.Base.{Bytes, Option, ℕ, ℤ}

-- struct sockaddr_storage, by its family. A port is in host order: htons and ntohs cancel out. A
-- sun_path is all the bytes of its array. A sockaddr_ll is its sll_ifindex, and the bytes of its
-- members sll_protocol, sll_hatype, sll_pkttype, sll_halen and sll_addr.
pub data SockAddr : Type 0 where
  inet : ℕ → ℕ → SockAddr
  inet6 : ℕ → ℕ → ℕ → ℕ → SockAddr
  unix : Bytes → SockAddr
  netlink : ℕ → ℕ → SockAddr
  packet : ℤ → Bytes → SockAddr
  unknown : SockAddr

-- the constants of the system, and the text form of addresses
pub record Families : Type 0 where
  pub af_inet : ℤ
  pub af_inet6 : ℤ
  pub af_unix : ℤ
  pub af_netlink : ℤ
  pub af_packet : ℤ
  -- by family; none where the text is no address
  pub inet_pton : ℤ → Bytes → Option ℕ
  pub inet_ntop : ℤ → ℕ → Bytes
  -- sizeof of each struct, and of sun_path
  pub sizeof_in : ℕ
  pub sizeof_in6 : ℕ
  pub sizeof_un : ℕ
  pub sizeof_nl : ℕ
  pub sizeof_ll : ℕ
  pub sizeof_sun_path : ℕ
