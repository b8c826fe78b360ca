-- ===== src/Unistd/Descriptors.antt =====
-- ext/posix/unistd.c: file descriptors, Pread and Pwrite excepted.
use luaposix.Base.{
  Bytes, List, Option, [], cast_int, eq_ℤ, if◌then◌else◌, is_negative, length, lit, minus_one, none,
  pos, some, ℤ, ◌∷◌,
}
use luaposix.Helpers.Args.{checkint, checkinteger, checknargs, optint}
use luaposix.Helpers.Results.{pusherror, pushresult}
use luaposix.Lua.{
  Binding, Exec, Host, Value, call, integer, lift, nil, pure, read_errno, string, ◌>>=◌, ◌>>◌,
}
use luaposix.Unistd.Calls.{UnistdCalls}

module _ ⦃lua : Host⦄ {W : Type 0} (os : UnistdCalls W) where
  unfoldable pub p_close : Binding W
  unfolding ◌>>=◌ checkint checknargs pushresult
  p_close args = do
    fd ← lift (checkint args 1)
    lift (checknargs args 1)
    r ← call (os.close fd)
    pushresult r none

  unfoldable pub p_dup : Binding W
  unfolding ◌>>=◌ checkint checknargs pushresult
  p_dup args = do
    fd ← lift (checkint args 1)
    lift (checknargs args 1)
    r ← call (os.dup fd)
    pushresult r none

  unfoldable pub p_dup2 : Binding W
  unfolding ◌>>=◌ checkint checknargs pushresult
  p_dup2 args = do
    fd ← lift (checkint args 1)
    newfd ← lift (checkint args 2)
    lift (checknargs args 2)
    r ← call (os.dup2 fd newfd)
    pushresult r none

  unfoldable pub p_fdatasync : Binding W
  unfolding ◌>>=◌ checkint checknargs pushresult
  p_fdatasync args = do
    fd ← lift (checkint args 1)
    lift (checknargs args 1)
    r ← call (os.fdatasync fd)
    pushresult r none

  unfoldable pub p_fsync : Binding W
  unfolding ◌>>=◌ checkint checknargs pushresult
  p_fsync args = do
    fd ← lift (checkint args 1)
    lift (checknargs args 1)
    r ← call (os.fsync fd)
    pushresult r none

  unfoldable pub p_isatty : Binding W
  unfolding ◌>>=◌ checkint checknargs pushresult
  p_isatty args = do
    fd ← lift (checkint args 1)
    lift (checknargs args 1)
    r ← call (os.isatty fd)
    pushresult (if eq_ℤ r (pos 0) then minus_one else pos 1) (some (lit "isatty"))

  -- the off_t of lseek goes through the int of pushresult
  unfoldable pub p_lseek : Binding W
  unfolding ◌>>=◌ checkint checkinteger checknargs pushresult
  p_lseek args = do
    fd ← lift (checkint args 1)
    offset ← lift (checkinteger args 2)
    whence ← lift (checkint args 3)
    lift (checknargs args 3)
    r ← call (os.lseek fd offset whence)
    pushresult r none

  unfoldable pub p_pipe : Binding W
  unfolding ◌>>=◌ checknargs pusherror
  p_pipe args = do
    lift (checknargs args 0)
    (rc, reader, writer) ← call os.pipe
    if is_negative rc
        then pusherror (some (lit "pipe"))
        else pure (integer reader ∷ integer writer ∷ [])

  -- these two leave out checknargs
  unfoldable pub p_tcgetpgrp : Binding W
  unfolding ◌>>=◌ checkint pushresult
  p_tcgetpgrp args = do fd ← lift (checkint args 1); r ← call (os.tcgetpgrp fd); pushresult r none

  unfoldable pub p_tcsetpgrp : Binding W
  unfolding ◌>>=◌ checkint checkinteger pushresult
  p_tcsetpgrp args = do
    fd ← lift (checkint args 1)
    pgid ← lift (checkinteger args 2)
    r ← call (os.tcsetpgrp fd (cast_int pgid))
    pushresult r none

  -- what follows the call, with the errno that it left
  abbrev pub name_or_reason : Option Bytes → ℤ → Exec W (List Value)
  name_or_reason (some name) errno = pure (string name ∷ [])
  name_or_reason none errno =
      if eq_ℤ errno (pos 0)
      then pure (nil ∷ string (lit "not a tty") ∷ [])
      else pusherror (some (lit "ttyname"))

  -- nothing resets errno before the call
  unfoldable pub p_ttyname : Binding W
  unfolding ◌>>=◌ optint checknargs pusherror
  p_ttyname args = do
    fd ← lift (optint args 1 (pos 0))
    lift (checknargs args 1)
    name ← call (os.ttyname fd)
    errno ← read_errno
    name_or_reason name errno

  unfoldable pub p_ftruncate : Binding W
  unfolding ◌>>=◌ checkint checkinteger checknargs pushresult
  p_ftruncate args = do
    fd ← lift (checkint args 1)
    length ← lift (checkinteger args 2)
    lift (checknargs args 2)
    r ← call (os.ftruncate fd length)
    pushresult r none
