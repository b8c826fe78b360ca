-- ===== src/Tests/Fixtures.antt =====
-- A host, an allocator with a ledger, and systems for the tests.
use luaposix.Base.{
  Bytes, List, Option, [], ap, arith, eq_bytes, false, if◌then◌else◌, lit, minus_one, none, pos,
  some, suc, ℕ, ◌∷◌,
}
use luaposix.Helpers.Fields.{table_entries}
use luaposix.Lua.{Host, Machine, Value, int, number}
use luaposix.Memory.{Allocator}
use luaposix.Memory.Balance.{Accounts}
use luaposix.Sys.Msg.{Msqid}
use luaposix.Sys.Socket.{Families, inet}
use luaposix.Sys.Socket.Bindings.{SocketCalls}
use luaposix.Sys.Socket.Options.{OptionCalls, vint}
use luaposix.Sys.Socket.Resolve.{ResolveCalls}
use luaposix.Sys.Socket.RoundTrip.{Distinct}
use luaposix.Unistd.Calls.{UnistdCalls}
use luaposix.Unistd.Getopt.{GetoptCalls}

-- the entries with a positive key, which is the border of a sequence
abbrev count_from_one : List (Value × Value) → ℕ
count_from_one [] = 0
count_from_one ((number (int (pos (suc n))), v) ∷ es) = suc (count_from_one es)
count_from_one (_ ∷ es) = count_from_one es

abbrev pub lua54 : Host
lua54 = record {
  float_to_integer = λ x. none;
  string_to_integer = λ s. if eq_bytes s (lit "10") then some (pos 10) else none;
  number_to_string = λ n. lit "0";
  typename = λ t. lit "type";
  tag_error = λ t u. lit "wrong type";
  invalid_option = λ s. lit "invalid option";
  format_int = λ n. lit "n";
  format_char = λ c. lit "c";
  strerror = λ n. lit "error";
  objlen = λ v. count_from_one (table_entries v);
  index_error = λ t. lit "attempt to index";
}

abbrev pub Ledger : Type 0
Ledger = List (ℕ × ℕ)

abbrev pub ledger_of : Ledger → Ledger
ledger_of w = w

abbrev pub idle : Machine Ledger
idle = record { errno = pos 0; kernel = [] }

abbrev pub without_last : Ledger → Ledger
without_last [] = []
without_last (x ∷ xs) = xs

-- the blocks that are out are a stack
abbrev pub stack_allocator : Allocator Ledger
stack_allocator = record {
  alloc = λ n w. (some 1, record w { kernel = (1, n) ∷ w.kernel });
  free = λ p n w. (tt, record w { kernel = without_last w.kernel });
}

pub stack_allocator-Accounts : Accounts ledger_of stack_allocator
stack_allocator-Accounts = record {
  refused = λ n w h. ground arith;
  granted = λ n p w h. cc h;
  freed = λ n p rest w h. ap without_last h;
}

abbrev pub calm_unistd : {W : Type 0} → UnistdCalls W
calm_unistd = record {
  getpwnam = λ a m. (some 0, m);
  getgrnam = λ a m. (some 0, m);
  access = λ a b m. (pos 0, m);
  alarm = λ a m. (0, m);
  chdir = λ a m. (pos 0, m);
  chown = λ a b c m. (pos 0, m);
  lchown = λ a b c m. (pos 0, m);
  close = λ a m. (pos 0, m);
  dup = λ a m. (pos 0, m);
  dup2 = λ a b m. (pos 0, m);
  execv = λ a b m. (tt, m);
  execvp = λ a b m. (tt, m);
  crypt = λ a b m. (none, m);
  leave = λ a m. (tt, m);
  fdatasync = λ a m. (pos 0, m);
  fork = λ m. (pos 0, m);
  fsync = λ a m. (pos 0, m);
  getegid = λ m. (pos 0, m);
  geteuid = λ m. (pos 0, m);
  getgid = λ m. (pos 0, m);
  getuid = λ m. (pos 0, m);
  getpgrp = λ m. (pos 0, m);
  getpid = λ m. (pos 0, m);
  getppid = λ m. (pos 0, m);
  gethostid = λ m. (pos 0, m);
  getlogin = λ m. (none, m);
  count_groups = λ m. (pos 0, m);
  getgroups = λ a m. ((pos 0, []), m);
  isatty = λ a m. (pos 0, m);
  symlink = λ a b m. (pos 0, m);
  link = λ a b m. (pos 0, m);
  linkat = λ a b c d e m. (pos 0, m);
  lseek = λ a b c m. (pos 0, m);
  nice = λ a m. (pos 0, m);
  pathconf = λ a b m. (pos 0, m);
  pipe = λ m. ((pos 0, pos 3, pos 4), m);
  rmdir = λ a m. (pos 0, m);
  seteuid = λ a m. (pos 0, m);
  setuid = λ a m. (pos 0, m);
  setegid = λ a m. (pos 0, m);
  setgid = λ a m. (pos 0, m);
  setsid = λ m. (pos 0, m);
  setpgid = λ a b m. (pos 0, m);
  sleep = λ a m. (0, m);
  sync = λ m. (tt, m);
  sysconf = λ a m. (pos 0, m);
  ttyname = λ a m. (none, m);
  tcgetpgrp = λ a m. (pos 0, m);
  tcsetpgrp = λ a b m. (pos 0, m);
  unlink = λ a m. (pos 0, m);
  write = λ fd buf offset n m. (n, m);
  read = λ fd n m. ((pos 3, lit "abc"), m);
  getcwd = λ n m. (some (lit "/tmp"), m);
  posix_path_max = 256;
  pc_path_max = pos 4;
  ftruncate = λ a b m. (pos 0, m);
  truncate = λ a b m. (pos 0, m);
  lstat_mode = λ a m. ((pos 0, 0), m);
  is_link = λ mode. false;
  readlink = λ path n m. ((pos 2, lit "to"), m);
  f_ok = 0;
  r_ok = 4;
  w_ok = 2;
  x_ok = 1;
  path_max = 4096;
  einval = pos 22;
}

abbrev pub some_queue : Msqid
some_queue = record {
  msg_qnum = 1;
  msg_qbytes = 16384;
  msg_lspid = pos 100;
  msg_lrpid = pos 101;
  msg_stime = pos 0;
  msg_rtime = pos 0;
  msg_ctime = pos 0;
  uid = 0;
  gid = 0;
  cuid = 0;
  cgid = 0;
  mode = 384;
}

-- a socket layer that knows one peer, at the port 7 of the address 9
abbrev pub calm_sockets : {W : Type 0} → SocketCalls W
calm_sockets = record {
  socket = λ d t p m. (pos 3, m);
  socketpair = λ d t p m. ((pos 0, pos 3, pos 4), m);
  connect = λ fd sa n m. (pos 0, m);
  bind = λ fd sa n m. (pos 0, m);
  listen = λ fd n m. (pos 0, m);
  accept = λ fd m. ((pos 5, pos 2, inet 7 9), m);
  recv = λ fd n m. ((pos 2, lit "hi"), m);
  recvfrom = λ fd n m. ((pos 2, lit "hi", pos 2, inet 7 9), m);
  send = λ fd s m. (pos 0, m);
  sendto = λ fd s sa n m. (pos 0, m);
  shutdown = λ fd how m. (pos 0, m);
  getsockname = λ fd m. ((pos 0, pos 2, inet 7 9), m);
  getpeername = λ fd m. ((pos 0, pos 2, inet 7 9), m);
  if_nametoindex = λ name m. (1, m);
}

abbrev pub calm_options : {W : Type 0} → OptionCalls W
calm_options = record {
  setsockopt = λ fd level name v n m. (pos 0, m);
  getsockopt = λ fd level name s n m. ((pos 0, vint (pos 1), 4), m);
  sol_socket = pos 1;
  ipproto_ipv6 = pos 41;
  ipproto_tcp = pos 6;
  so_linger = pos 13;
  so_rcvtimeo = pos 20;
  so_sndtimeo = pos 21;
  so_bindtodevice = pos 25;
  ipv6_join_group = pos 20;
  ipv6_leave_group = pos 21;
  sizeof_linger = 8;
  sizeof_timeval = 16;
  sizeof_mreq6 = 20;
  sizeof_int = 4;
  ifnamsiz = 16;
  pton6 = λ s. none;
}

abbrev pub calm_resolver : {W : Type 0} → ResolveCalls W
calm_resolver = record {
  getaddrinfo = λ host service hints m. ((pos 0, []), m);
  freeaddrinfo = λ res m. (tt, m);
  gai_strerror = λ r. lit "error";
  pf_unspec = pos 0;
}

abbrev first : Bytes → Option ℕ
first [] = none
first (c ∷ s) = some c

-- the constants of Linux; a text form with one byte for each address
abbrev pub linux : Families
linux = record {
  af_inet = pos 2;
  af_inet6 = pos 10;
  af_unix = pos 1;
  af_netlink = pos 16;
  af_packet = pos 17;
  inet_pton = λ af text. first text;
  inet_ntop = λ af a. a ∷ [];
  sizeof_in = 16;
  sizeof_in6 = 28;
  sizeof_un = 110;
  sizeof_nl = 12;
  sizeof_ll = 20;
  sizeof_sun_path = 108;
}

pub linux-Distinct : Distinct linux
linux-Distinct = record {
  inet_int = omega arith;
  inet6_int = omega arith;
  unix_int = omega arith;
  netlink_int = omega arith;
  packet_int = omega arith;
  inet6_inet = ground arith;
  unix_inet = ground arith;
  unix_inet6 = ground arith;
  netlink_inet = ground arith;
  netlink_inet6 = ground arith;
  netlink_unix = ground arith;
  packet_inet = ground arith;
  packet_inet6 = ground arith;
  packet_unix = ground arith;
  packet_netlink = ground arith;
}

-- getopt of a process without options
abbrev pub no_options : {W : Type 0} → GetoptCalls W
no_options = record {
  set_opterr = λ n m. (tt, m);
  set_optind = λ n m. (tt, m);
  getopt = λ argc argv options m. ((minus_one, none, pos 1, argv), m);
  push_closure = λ c m. (1, m);
}
