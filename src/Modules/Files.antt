-- ===== src/Modules/Files.antt =====
-- The module tables of ext/posix/fcntl.c, ext/posix/sys/stat.c, ext/posix/sys/statvfs.c,
-- ext/posix/glob.c, ext/posix/fnmatch.c, ext/posix/dirent.c, ext/posix/libgen.c,
-- ext/posix/utime.c, ext/posix/stdio.c, ext/posix/poll.c.
use luaposix.Base.{Bytes, List, [], lit, ◌∷◌}
use luaposix.Modules.{Item, Module, constant}

abbrev pub fcntl_functions : List Bytes
fcntl_functions = lit "fcntl" ∷ lit "open" ∷ lit "posix_fadvise" ∷ []

abbrev pub fcntl_constants : List Item
fcntl_constants =
    constant (lit "AT_EACCESS")
    ∷ constant (lit "AT_FDCWD")
    ∷ constant (lit "AT_REMOVEDIR")
    ∷ constant (lit "AT_SYMLINK_FOLLOW")
    ∷ constant (lit "AT_SYMLINK_NOFOLLOW")
    ∷ constant (lit "AT_EMPTY_PATH")
    ∷ constant (lit "AT_NO_AUTOMOUNT")
    ∷ constant (lit "FD_CLOEXEC")
    ∷ constant (lit "F_DUPFD")
    ∷ constant (lit "F_GETFD")
    ∷ constant (lit "F_SETFD")
    ∷ constant (lit "F_GETFL")
    ∷ constant (lit "F_SETFL")
    ∷ constant (lit "F_GETLK")
    ∷ constant (lit "F_SETLK")
    ∷ constant (lit "F_SETLKW")
    ∷ constant (lit "F_GETOWN")
    ∷ constant (lit "F_SETOWN")
    ∷ constant (lit "F_RDLCK")
    ∷ constant (lit "F_WRLCK")
    ∷ constant (lit "F_UNLCK")
    ∷ constant (lit "O_RDONLY")
    ∷ constant (lit "O_WRONLY")
    ∷ constant (lit "O_RDWR")
    ∷ constant (lit "O_APPEND")
    ∷ constant (lit "O_CREAT")
    ∷ constant (lit "O_DSYNC")
    ∷ constant (lit "O_EXCL")
    ∷ constant (lit "O_NOCTTY")
    ∷ constant (lit "O_NONBLOCK")
    ∷ constant (lit "O_RSYNC")
    ∷ constant (lit "O_SYNC")
    ∷ constant (lit "O_TRUNC")
    ∷ constant (lit "O_CLOEXEC")
    ∷ constant (lit "O_TMPFILE")
    ∷ constant (lit "POSIX_FADV_NORMAL")
    ∷ constant (lit "POSIX_FADV_SEQUENTIAL")
    ∷ constant (lit "POSIX_FADV_RANDOM")
    ∷ constant (lit "POSIX_FADV_NOREUSE")
    ∷ constant (lit "POSIX_FADV_WILLNEED")
    ∷ constant (lit "POSIX_FADV_DONTNEED")
    ∷ []

abbrev pub posix_fcntl : Module
posix_fcntl = record { name = lit "fcntl"; functions = fcntl_functions; items = fcntl_constants }

abbrev pub sys_stat_functions : List Bytes
sys_stat_functions =
    lit "S_ISBLK"
    ∷ lit "S_ISCHR"
    ∷ lit "S_ISDIR"
    ∷ lit "S_ISFIFO"
    ∷ lit "S_ISLNK"
    ∷ lit "S_ISREG"
    ∷ lit "S_ISSOCK"
    ∷ lit "chmod"
    ∷ lit "lstat"
    ∷ lit "fstat"
    ∷ lit "mkdir"
    ∷ lit "mkfifo"
    ∷ lit "stat"
    ∷ lit "umask"
    ∷ []

abbrev pub sys_stat_constants : List Item
sys_stat_constants =
    constant (lit "S_IFMT")
    ∷ constant (lit "S_IFBLK")
    ∷ constant (lit "S_IFCHR")
    ∷ constant (lit "S_IFDIR")
    ∷ constant (lit "S_IFIFO")
    ∷ constant (lit "S_IFLNK")
    ∷ constant (lit "S_IFREG")
    ∷ constant (lit "S_IFSOCK")
    ∷ constant (lit "S_IRWXU")
    ∷ constant (lit "S_IRUSR")
    ∷ constant (lit "S_IWUSR")
    ∷ constant (lit "S_IXUSR")
    ∷ constant (lit "S_IRWXG")
    ∷ constant (lit "S_IRGRP")
    ∷ constant (lit "S_IWGRP")
    ∷ constant (lit "S_IXGRP")
    ∷ constant (lit "S_IRWXO")
    ∷ constant (lit "S_IROTH")
    ∷ constant (lit "S_IWOTH")
    ∷ constant (lit "S_IXOTH")
    ∷ constant (lit "S_ISGID")
    ∷ constant (lit "S_ISUID")
    ∷ []

abbrev pub posix_sys_stat : Module
posix_sys_stat = record {
  name = lit "sys.stat";
  functions = sys_stat_functions;
  items = sys_stat_constants;
}

abbrev pub sys_statvfs_functions : List Bytes
sys_statvfs_functions = lit "statvfs" ∷ []

abbrev pub sys_statvfs_constants : List Item
sys_statvfs_constants = constant (lit "ST_RDONLY") ∷ constant (lit "ST_NOSUID") ∷ []

abbrev pub posix_sys_statvfs : Module
posix_sys_statvfs = record {
  name = lit "sys.statvfs";
  functions = sys_statvfs_functions;
  items = sys_statvfs_constants;
}

abbrev pub glob_functions : List Bytes
glob_functions = lit "glob" ∷ []

abbrev pub glob_constants : List Item
glob_constants =
    constant (lit "GLOB_ERR")
    ∷ constant (lit "GLOB_MARK")
    ∷ constant (lit "GLOB_NOCHECK")
    ∷ constant (lit "GLOB_ABORTED")
    ∷ constant (lit "GLOB_NOMATCH")
    ∷ constant (lit "GLOB_NOSPACE")
    ∷ []

abbrev pub posix_glob : Module
posix_glob = record { name = lit "glob"; functions = glob_functions; items = glob_constants }

abbrev pub fnmatch_functions : List Bytes
fnmatch_functions = lit "fnmatch" ∷ []

abbrev pub fnmatch_constants : List Item
fnmatch_constants =
    constant (lit "FNM_PATHNAME")
    ∷ constant (lit "FNM_NOESCAPE")
    ∷ constant (lit "FNM_NOMATCH")
    ∷ constant (lit "FNM_PERIOD")
    ∷ []

abbrev pub posix_fnmatch : Module
posix_fnmatch = record {
  name = lit "fnmatch";
  functions = fnmatch_functions;
  items = fnmatch_constants;
}

abbrev pub dirent_functions : List Bytes
dirent_functions = lit "dir" ∷ lit "files" ∷ []

abbrev pub posix_dirent : Module
posix_dirent = record { name = lit "dirent"; functions = dirent_functions; items = [] }

abbrev pub libgen_functions : List Bytes
libgen_functions = lit "basename" ∷ lit "dirname" ∷ []

abbrev pub posix_libgen : Module
posix_libgen = record { name = lit "libgen"; functions = libgen_functions; items = [] }

abbrev pub utime_functions : List Bytes
utime_functions = lit "utime" ∷ []

abbrev pub posix_utime : Module
posix_utime = record { name = lit "utime"; functions = utime_functions; items = [] }

abbrev pub stdio_functions : List Bytes
stdio_functions = lit "ctermid" ∷ lit "fileno" ∷ lit "fdopen" ∷ lit "rename" ∷ []

abbrev pub stdio_constants : List Item
stdio_constants =
    constant (lit "_IOFBF")
    ∷ constant (lit "_IOLBF")
    ∷ constant (lit "_IONBF")
    ∷ constant (lit "BUFSIZ")
    ∷ constant (lit "EOF")
    ∷ constant (lit "FOPEN_MAX")
    ∷ constant (lit "FILENAME_MAX")
    ∷ []

abbrev pub posix_stdio : Module
posix_stdio = record { name = lit "stdio"; functions = stdio_functions; items = stdio_constants }

abbrev pub poll_functions : List Bytes
poll_functions = lit "poll" ∷ lit "rpoll" ∷ []

abbrev pub posix_poll : Module
posix_poll = record { name = lit "poll"; functions = poll_functions; items = [] }
