-- ===== src/Modules/Processes.antt =====
-- The module tables of ext/posix/signal.c, ext/posix/unistd.c, ext/posix/sys/resource.c,
-- ext/posix/sys/wait.c, ext/posix/sched.c, ext/posix/sys/time.c, ext/posix/sys/times.c.
use luaposix.Base.{Bytes, List, [], lit, ◌∷◌}
use luaposix.Modules.{Item, Module, constant, literal}

abbrev pub signal_functions : List Bytes
signal_functions = lit "kill" ∷ lit "killpg" ∷ lit "raise" ∷ lit "signal" ∷ []

abbrev pub signal_constants : List Item
signal_constants =
    constant (lit "SIGABRT")
    ∷ constant (lit "SIGALRM")
    ∷ constant (lit "SIGBUS")
    ∷ constant (lit "SIGCHLD")
    ∷ constant (lit "SIGCONT")
    ∷ constant (lit "SIGFPE")
    ∷ constant (lit "SIGHUP")
    ∷ constant (lit "SIGILL")
    ∷ constant (lit "SIGINFO")
    ∷ constant (lit "SIGINT")
    ∷ constant (lit "SIGKILL")
    ∷ constant (lit "SIGPIPE")
    ∷ constant (lit "SIGQUIT")
    ∷ constant (lit "SIGSEGV")
    ∷ constant (lit "SIGSTOP")
    ∷ constant (lit "SIGTERM")
    ∷ constant (lit "SIGTSTP")
    ∷ constant (lit "SIGTTIN")
    ∷ constant (lit "SIGTTOU")
    ∷ constant (lit "SIGUSR1")
    ∷ constant (lit "SIGUSR2")
    ∷ constant (lit "SIGSYS")
    ∷ constant (lit "SIGTRAP")
    ∷ constant (lit "SIGURG")
    ∷ constant (lit "SIGVTALRM")
    ∷ constant (lit "SIGWINCH")
    ∷ constant (lit "SIGXCPU")
    ∷ constant (lit "SIGXFSZ")
    ∷ literal (lit "SIG_DFL")
    ∷ literal (lit "SIG_IGN")
    ∷ constant (lit "SA_NOCLDSTOP")
    ∷ constant (lit "SA_NOCLDWAIT")
    ∷ constant (lit "SA_NODEFER")
    ∷ constant (lit "SA_RESETHAND")
    ∷ constant (lit "SA_RESTART")
    ∷ []

abbrev pub posix_signal : Module
posix_signal = record {
  name = lit "signal";
  functions = signal_functions;
  items = signal_constants;
}

abbrev pub unistd_functions : List Bytes
unistd_functions =
    lit "_exit"
    ∷ lit "access"
    ∷ lit "alarm"
    ∷ lit "chdir"
    ∷ lit "chown"
    ∷ lit "close"
    ∷ lit "crypt"
    ∷ lit "dup"
    ∷ lit "dup2"
    ∷ lit "exec"
    ∷ lit "execp"
    ∷ lit "fdatasync"
    ∷ lit "fork"
    ∷ lit "fsync"
    ∷ lit "getcwd"
    ∷ lit "getgroups"
    ∷ lit "getegid"
    ∷ lit "geteuid"
    ∷ lit "getgid"
    ∷ lit "getlogin"
    ∷ lit "getopt"
    ∷ lit "getpgrp"
    ∷ lit "getpid"
    ∷ lit "getppid"
    ∷ lit "getuid"
    ∷ lit "gethostid"
    ∷ lit "isatty"
    ∷ lit "lchown"
    ∷ lit "link"
    ∷ lit "linkat"
    ∷ lit "lseek"
    ∷ lit "nice"
    ∷ lit "pathconf"
    ∷ lit "pipe"
    ∷ lit "read"
    ∷ lit "readlink"
    ∷ lit "rmdir"
    ∷ lit "setpid"
    ∷ lit "sleep"
    ∷ lit "sync"
    ∷ lit "sysconf"
    ∷ lit "ttyname"
    ∷ lit "tcgetpgrp"
    ∷ lit "tcsetpgrp"
    ∷ lit "unlink"
    ∷ lit "write"
    ∷ lit "ftruncate"
    ∷ lit "truncate"
    ∷ []

abbrev pub unistd_constants : List Item
unistd_constants =
    constant (lit "_PC_CHOWN_RESTRICTED")
    ∷ constant (lit "_PC_LINK_MAX")
    ∷ constant (lit "_PC_MAX_CANON")
    ∷ constant (lit "_PC_MAX_INPUT")
    ∷ constant (lit "_PC_NAME_MAX")
    ∷ constant (lit "_PC_NO_TRUNC")
    ∷ constant (lit "_PC_PATH_MAX")
    ∷ constant (lit "_PC_PIPE_BUF")
    ∷ constant (lit "_PC_VDISABLE")
    ∷ constant (lit "_SC_ARG_MAX")
    ∷ constant (lit "_SC_CHILD_MAX")
    ∷ constant (lit "_SC_CLK_TCK")
    ∷ constant (lit "_SC_JOB_CONTROL")
    ∷ constant (lit "_SC_NGROUPS_MAX")
    ∷ constant (lit "_SC_OPEN_MAX")
    ∷ constant (lit "_SC_PAGESIZE")
    ∷ constant (lit "_SC_SAVED_IDS")
    ∷ constant (lit "_SC_STREAM_MAX")
    ∷ constant (lit "_SC_TZNAME_MAX")
    ∷ constant (lit "_SC_VERSION")
    ∷ constant (lit "SEEK_CUR")
    ∷ constant (lit "SEEK_END")
    ∷ constant (lit "SEEK_SET")
    ∷ constant (lit "STDERR_FILENO")
    ∷ constant (lit "STDIN_FILENO")
    ∷ constant (lit "STDOUT_FILENO")
    ∷ []

abbrev pub posix_unistd : Module
posix_unistd = record {
  name = lit "unistd";
  functions = unistd_functions;
  items = unistd_constants;
}

abbrev pub sys_resource_functions : List Bytes
sys_resource_functions = lit "getrlimit" ∷ lit "setrlimit" ∷ []

abbrev pub sys_resource_constants : List Item
sys_resource_constants =
    constant (lit "RLIM_INFINITY")
    ∷ constant (lit "RLIM_SAVED_CUR")
    ∷ constant (lit "RLIM_SAVED_MAX")
    ∷ constant (lit "RLIMIT_CORE")
    ∷ constant (lit "RLIMIT_CPU")
    ∷ constant (lit "RLIMIT_DATA")
    ∷ constant (lit "RLIMIT_FSIZE")
    ∷ constant (lit "RLIMIT_NOFILE")
    ∷ constant (lit "RLIMIT_STACK")
    ∷ constant (lit "RLIMIT_AS")
    ∷ []

abbrev pub posix_sys_resource : Module
posix_sys_resource = record {
  name = lit "sys.resource";
  functions = sys_resource_functions;
  items = sys_resource_constants;
}

abbrev pub sys_wait_functions : List Bytes
sys_wait_functions = lit "wait" ∷ []

abbrev pub sys_wait_constants : List Item
sys_wait_constants = constant (lit "WNOHANG") ∷ constant (lit "WUNTRACED") ∷ []

abbrev pub posix_sys_wait : Module
posix_sys_wait = record {
  name = lit "sys.wait";
  functions = sys_wait_functions;
  items = sys_wait_constants;
}

abbrev pub sched_functions : List Bytes
sched_functions = lit "sched_getscheduler" ∷ lit "sched_setscheduler" ∷ []

abbrev pub sched_constants : List Item
sched_constants =
    constant (lit "SCHED_FIFO") ∷ constant (lit "SCHED_RR") ∷ constant (lit "SCHED_OTHER") ∷ []

abbrev pub posix_sched : Module
posix_sched = record { name = lit "sched"; functions = sched_functions; items = sched_constants }

abbrev pub sys_time_functions : List Bytes
sys_time_functions = lit "gettimeofday" ∷ []

abbrev pub posix_sys_time : Module
posix_sys_time = record { name = lit "sys.time"; functions = sys_time_functions; items = [] }

abbrev pub sys_times_functions : List Bytes
sys_times_functions = lit "times" ∷ []

abbrev pub posix_sys_times : Module
posix_sys_times = record { name = lit "sys.times"; functions = sys_times_functions; items = [] }
