-- ===== src/Modules/Errno.antt =====
-- The module tables of ext/posix/errno.c.
use luaposix.Base.{Bytes, List, [], lit, ◌++◌, ◌∷◌}
use luaposix.Modules.{Item, Module, constant}

abbrev pub errno_functions : List Bytes
errno_functions = lit "errno" ∷ lit "set_errno" ∷ []

abbrev pub errno_constants : List Item
errno_constants =
    constant (lit "E2BIG")
    ∷ constant (lit "EACCES")
    ∷ constant (lit "EADDRINUSE")
    ∷ constant (lit "EADDRNOTAVAIL")
    ∷ constant (lit "EAFNOSUPPORT")
    ∷ constant (lit "EAGAIN")
    ∷ constant (lit "EALREADY")
    ∷ constant (lit "EBADF")
    ∷ constant (lit "EBADMSG")
    ∷ constant (lit "EBUSY")
    ∷ constant (lit "ECANCELED")
    ∷ constant (lit "ECHILD")
    ∷ constant (lit "ECONNABORTED")
    ∷ constant (lit "ECONNREFUSED")
    ∷ constant (lit "ECONNRESET")
    ∷ constant (lit "EDEADLK")
    ∷ constant (lit "EDESTADDRREQ")
    ∷ constant (lit "EDOM")
    ∷ constant (lit "EEXIST")
    ∷ constant (lit "EFAULT")
    ∷ constant (lit "EFBIG")
    ∷ constant (lit "EHOSTUNREACH")
    ∷ constant (lit "EIDRM")
    ∷ constant (lit "EILSEQ")
    ∷ constant (lit "EINPROGRESS")
    ∷ constant (lit "EINTR")
    ∷ constant (lit "EINVAL")
    ∷ constant (lit "EIO")
    ∷ constant (lit "EISCONN")
    ∷ constant (lit "EISDIR")
    ∷ constant (lit "ELOOP")
    ∷ constant (lit "EMFILE")
    ∷ constant (lit "EMLINK")
    ∷ constant (lit "EMSGSIZE")
    ∷ constant (lit "ENAMETOOLONG")
    ∷ constant (lit "ENETDOWN")
    ∷ constant (lit "ENETRESET")
    ∷ constant (lit "ENETUNREACH")
    ∷ constant (lit "ENFILE")
    ∷ constant (lit "ENOBUFS")
    ∷ constant (lit "ENODEV")
    ∷ constant (lit "ENOENT")
    ∷ []

abbrev pub more_errno_constants : List Item
more_errno_constants =
    constant (lit "ENOEXEC")
    ∷ constant (lit "ENOLCK")
    ∷ constant (lit "ENOMEM")
    ∷ constant (lit "ENOMSG")
    ∷ constant (lit "ENOPROTOOPT")
    ∷ constant (lit "ENOSPC")
    ∷ constant (lit "ENOSYS")
    ∷ constant (lit "ENOTCONN")
    ∷ constant (lit "ENOTDIR")
    ∷ constant (lit "ENOTEMPTY")
    ∷ constant (lit "ENOTSOCK")
    ∷ constant (lit "ENOTSUP")
    ∷ constant (lit "ENOTTY")
    ∷ constant (lit "ENXIO")
    ∷ constant (lit "EOPNOTSUPP")
    ∷ constant (lit "EOVERFLOW")
    ∷ constant (lit "EPERM")
    ∷ constant (lit "EPIPE")
    ∷ constant (lit "EPROTO")
    ∷ constant (lit "EPROTONOSUPPORT")
    ∷ constant (lit "EPROTOTYPE")
    ∷ constant (lit "ERANGE")
    ∷ constant (lit "EROFS")
    ∷ constant (lit "ESPIPE")
    ∷ constant (lit "ESRCH")
    ∷ constant (lit "ETIMEDOUT")
    ∷ constant (lit "ETXTBSY")
    ∷ constant (lit "EWOULDBLOCK")
    ∷ constant (lit "EXDEV")
    ∷ []

abbrev pub posix_errno : Module
posix_errno = record {
  name = lit "errno";
  functions = errno_functions;
  items = errno_constants ++ more_errno_constants;
}
