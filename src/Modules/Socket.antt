-- ===== src/Modules/Socket.antt =====
-- The module tables of ext/posix/sys/socket.c.
use luaposix.Base.{Bytes, List, [], lit, ◌∷◌}
use luaposix.Modules.{Item, Module, constant}

abbrev pub sys_socket_functions : List Bytes
sys_socket_functions =
    lit "socket"
    ∷ lit "socketpair"
    ∷ lit "getaddrinfo"
    ∷ lit "connect"
    ∷ lit "bind"
    ∷ lit "listen"
    ∷ lit "accept"
    ∷ lit "recv"
    ∷ lit "recvfrom"
    ∷ lit "send"
    ∷ lit "sendto"
    ∷ lit "shutdown"
    ∷ lit "setsockopt"
    ∷ lit "getsockopt"
    ∷ lit "getsockname"
    ∷ lit "getpeername"
    ∷ lit "if_nametoindex"
    ∷ []

abbrev pub sys_socket_constants : List Item
sys_socket_constants =
    constant (lit "SOMAXCONN")
    ∷ constant (lit "AF_UNSPEC")
    ∷ constant (lit "AF_INET")
    ∷ constant (lit "AF_INET6")
    ∷ constant (lit "AF_UNIX")
    ∷ constant (lit "AF_NETLINK")
    ∷ constant (lit "AF_PACKET")
    ∷ constant (lit "SOL_SOCKET")
    ∷ constant (lit "IPPROTO_TCP")
    ∷ constant (lit "IPPROTO_UDP")
    ∷ constant (lit "IPPROTO_IP")
    ∷ constant (lit "IPPROTO_IPV6")
    ∷ constant (lit "IPPROTO_ICMP")
    ∷ constant (lit "SOCK_STREAM")
    ∷ constant (lit "SOCK_DGRAM")
    ∷ constant (lit "SOCK_RAW")
    ∷ constant (lit "SHUT_RD")
    ∷ constant (lit "SHUT_WR")
    ∷ constant (lit "SHUT_RDWR")
    ∷ constant (lit "SO_ACCEPTCONN")
    ∷ constant (lit "SO_BROADCAST")
    ∷ constant (lit "SO_LINGER")
    ∷ constant (lit "SO_RCVTIMEO")
    ∷ constant (lit "SO_SNDTIMEO")
    ∷ constant (lit "SO_BINDTODEVICE")
    ∷ constant (lit "SO_DEBUG")
    ∷ constant (lit "SO_DONTROUTE")
    ∷ constant (lit "SO_ERROR")
    ∷ constant (lit "SO_KEEPALIVE")
    ∷ constant (lit "SO_OOBINLINE")
    ∷ constant (lit "SO_RCVBUF")
    ∷ constant (lit "SO_RCVLOWAT")
    ∷ constant (lit "SO_REUSEADDR")
    ∷ constant (lit "SO_SNDBUF")
    ∷ constant (lit "SO_SNDLOWAT")
    ∷ constant (lit "SO_TYPE")
    ∷ constant (lit "TCP_NODELAY")
    ∷ constant (lit "AI_ADDRCONFIG")
    ∷ constant (lit "AI_ALL")
    ∷ constant (lit "AI_CANONNAME")
    ∷ constant (lit "AI_NUMERICHOST")
    ∷ constant (lit "AI_NUMERICSERV")
    ∷ constant (lit "AI_PASSIVE")
    ∷ constant (lit "AI_V4MAPPED")
    ∷ constant (lit "IPV6_JOIN_GROUP")
    ∷ constant (lit "IPV6_LEAVE_GROUP")
    ∷ constant (lit "IPV6_MULTICAST_HOPS")
    ∷ constant (lit "IPV6_MULTICAST_IF")
    ∷ constant (lit "IPV6_MULTICAST_LOOP")
    ∷ constant (lit "IPV6_UNICAST_HOPS")
    ∷ constant (lit "IPV6_V6ONLY")
    ∷ constant (lit "NETLINK_ROUTE")
    ∷ constant (lit "NETLINK_UNUSED")
    ∷ constant (lit "NETLINK_USERSOCK")
    ∷ constant (lit "NETLINK_FIREWALL")
    ∷ constant (lit "NETLINK_NFLOG")
    ∷ constant (lit "NETLINK_XFRM")
    ∷ constant (lit "NETLINK_SELINUX")
    ∷ constant (lit "NETLINK_ISCSI")
    ∷ constant (lit "NETLINK_AUDIT")
    ∷ constant (lit "NETLINK_FIB_LOOKUP")
    ∷ constant (lit "NETLINK_CONNECTOR")
    ∷ constant (lit "NETLINK_NETFILTER")
    ∷ constant (lit "NETLINK_IP6_FW")
    ∷ constant (lit "NETLINK_DNRTMSG")
    ∷ constant (lit "NETLINK_KOBJECT_UEVENT")
    ∷ constant (lit "NETLINK_GENERIC")
    ∷ constant (lit "NETLINK_SCSITRANSPORT")
    ∷ constant (lit "NETLINK_ECRYPTFS")
    ∷ []

abbrev pub posix_sys_socket : Module
posix_sys_socket = record {
  name = lit "sys.socket";
  functions = sys_socket_functions;
  items = sys_socket_constants;
}
