-- ===== src/Modules/Hosts.antt =====
-- The module tables of ext/posix/sys/msg.c, ext/posix/syslog.c, ext/posix/time.c,
-- ext/posix/stdlib.c, ext/posix/grp.c, ext/posix/pwd.c, ext/posix/ctype.c,
-- ext/posix/sys/utsname.c.
use luaposix.Base.{Bytes, List, [], lit, ◌∷◌}
use luaposix.Modules.{Item, Module, constant}

abbrev pub sys_msg_functions : List Bytes
sys_msg_functions = lit "msgctl" ∷ lit "msgget" ∷ lit "msgsnd" ∷ lit "msgrcv" ∷ []

abbrev pub sys_msg_constants : List Item
sys_msg_constants =
    constant (lit "IPC_CREAT")
    ∷ constant (lit "MSG_EXCEPT")
    ∷ constant (lit "IPC_EXCL")
    ∷ constant (lit "MSG_NOERROR")
    ∷ constant (lit "IPC_NOWAIT")
    ∷ constant (lit "IPC_PRIVATE")
    ∷ constant (lit "IPC_RMID")
    ∷ constant (lit "IPC_SET")
    ∷ constant (lit "IPC_STAT")
    ∷ []

abbrev pub posix_sys_msg : Module
posix_sys_msg = record {
  name = lit "sys.msg";
  functions = sys_msg_functions;
  items = sys_msg_constants;
}

abbrev pub syslog_functions : List Bytes
syslog_functions =
    lit "LOG_MASK" ∷ lit "openlog" ∷ lit "syslog" ∷ lit "closelog" ∷ lit "setlogmask" ∷ []

abbrev pub syslog_constants : List Item
syslog_constants =
    constant (lit "LOG_CONS")
    ∷ constant (lit "LOG_NDELAY")
    ∷ constant (lit "LOG_PID")
    ∷ constant (lit "LOG_AUTH")
    ∷ constant (lit "LOG_CRON")
    ∷ constant (lit "LOG_DAEMON")
    ∷ constant (lit "LOG_KERN")
    ∷ constant (lit "LOG_LOCAL0")
    ∷ constant (lit "LOG_LOCAL1")
    ∷ constant (lit "LOG_LOCAL2")
    ∷ constant (lit "LOG_LOCAL3")
    ∷ constant (lit "LOG_LOCAL4")
    ∷ constant (lit "LOG_LOCAL5")
    ∷ constant (lit "LOG_LOCAL6")
    ∷ constant (lit "LOG_LOCAL7")
    ∷ constant (lit "LOG_LPR")
    ∷ constant (lit "LOG_MAIL")
    ∷ constant (lit "LOG_NEWS")
    ∷ constant (lit "LOG_USER")
    ∷ constant (lit "LOG_UUCP")
    ∷ constant (lit "LOG_EMERG")
    ∷ constant (lit "LOG_ALERT")
    ∷ constant (lit "LOG_CRIT")
    ∷ constant (lit "LOG_ERR")
    ∷ constant (lit "LOG_WARNING")
    ∷ constant (lit "LOG_NOTICE")
    ∷ constant (lit "LOG_INFO")
    ∷ constant (lit "LOG_DEBUG")
    ∷ constant (lit "LOG_AUTHPRIV")
    ∷ constant (lit "LOG_FTP")
    ∷ constant (lit "LOG_SYSLOG")
    ∷ []

abbrev pub posix_syslog : Module
posix_syslog = record {
  name = lit "syslog";
  functions = syslog_functions;
  items = syslog_constants;
}

abbrev pub time_functions : List Bytes
time_functions =
    lit "clock_getres"
    ∷ lit "clock_gettime"
    ∷ lit "gmtime"
    ∷ lit "localtime"
    ∷ lit "mktime"
    ∷ lit "nanosleep"
    ∷ lit "strftime"
    ∷ lit "strptime"
    ∷ lit "time"
    ∷ []

abbrev pub time_constants : List Item
time_constants =
    constant (lit "CLOCK_MONOTONIC")
    ∷ constant (lit "CLOCK_PROCESS_CPUTIME_ID")
    ∷ constant (lit "CLOCK_REALTIME")
    ∷ constant (lit "CLOCK_THREAD_CPUTIME_ID")
    ∷ []

abbrev pub posix_time : Module
posix_time = record { name = lit "time"; functions = time_functions; items = time_constants }

abbrev pub stdlib_functions : List Bytes
stdlib_functions =
    lit "abort"
    ∷ lit "getenv"
    ∷ lit "grantpt"
    ∷ lit "mkdtemp"
    ∷ lit "mkstemp"
    ∷ lit "openpt"
    ∷ lit "ptsname"
    ∷ lit "realpath"
    ∷ lit "setenv"
    ∷ lit "unlockpt"
    ∷ []

abbrev pub posix_stdlib : Module
posix_stdlib = record { name = lit "stdlib"; functions = stdlib_functions; items = [] }

abbrev pub grp_functions : List Bytes
grp_functions =
    lit "endgrent" ∷ lit "getgrent" ∷ lit "getgrgid" ∷ lit "getgrnam" ∷ lit "setgrent" ∷ []

abbrev pub posix_grp : Module
posix_grp = record { name = lit "grp"; functions = grp_functions; items = [] }

abbrev pub pwd_functions : List Bytes
pwd_functions =
    lit "endpwent" ∷ lit "getpwent" ∷ lit "getpwnam" ∷ lit "getpwuid" ∷ lit "setpwent" ∷ []

abbrev pub posix_pwd : Module
posix_pwd = record { name = lit "pwd"; functions = pwd_functions; items = [] }

abbrev pub ctype_functions : List Bytes
ctype_functions = lit "isgraph" ∷ lit "isprint" ∷ []

abbrev pub posix_ctype : Module
posix_ctype = record { name = lit "ctype"; functions = ctype_functions; items = [] }

abbrev pub sys_utsname_functions : List Bytes
sys_utsname_functions = lit "uname" ∷ []

abbrev pub posix_sys_utsname : Module
posix_sys_utsname = record {
  name = lit "sys.utsname";
  functions = sys_utsname_functions;
  items = [];
}
