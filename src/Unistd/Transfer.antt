-- ===== src/Unistd/Transfer.antt =====
-- ext/posix/unistd.c: Pread, Pwrite and Pgetcwd, which handle buffers.
use luaposix.Base.{
  Bytes, List, Option, [], cast_int, cast_long, cast_size, eq_ℤ, if◌then◌else◌, is_negative, leb_ℤ,
  length, lit, ltb, ltb_ℤ, minus_one, none, not, pos, pos_part, some, take, ℕ, ℤ, ◌&&◌, ◌++◌, ◌+ℤ◌,
  ◌+◌, ◌-ℤ◌, ◌||◌, ◌∷◌,
}
use luaposix.Helpers.Args.{arg_type, checkint, checkinteger, checknargs, checkstring, optinteger}
use luaposix.Helpers.Results.{pusherror, pushintegerresult, pushresult}
use luaposix.Lua.{
  Binding, Exec, Host, LuaType, Value, call, eq_type, integer, lift, nil, pure, string, write_errno,
  ◌>>=◌, ◌>>◌,
}
use luaposix.Memory.{Allocator, allocate, is_null, release}
use luaposix.Unistd.Calls.{UnistdCalls}

-- what Pwrite makes of its buffer length, count and offset
pub data Plan : Type 0 where
  nothing : Plan
  window : ℤ → ℤ → Plan
  invalid : ℤ → Plan

-- the sum is one of 64 bits, as the machine adds
unfoldable pub write_plan : ℤ → ℤ → ℤ → Plan
write_plan buflen nbytes offset =
    let end = cast_long (offset +ℤ nbytes) in
    if eq_ℤ nbytes (pos 0)
    then nothing
    else if leb_ℤ (pos 0) offset && (ltb_ℤ (pos 0) nbytes && leb_ℤ end buflen)
    then window offset nbytes
    else if ltb_ℤ end (pos 0) || ltb_ℤ buflen end
    then invalid (cast_long (offset +ℤ nbytes))
    else invalid offset

module _ ⦃lua : Host⦄ {W : Type 0} (os : UnistdCalls W) where
  -- from `if (nbytes == 0)` on
  unfoldable pub follow_plan : ℤ → Bytes → ℤ → Plan → Exec W (List Value)
  unfolding ◌>>=◌ pushintegerresult pushresult
  follow_plan fd buf buflen nothing = pushintegerresult (pos 0)
  follow_plan fd buf buflen (window start size) = do
    r ← call (os.write fd buf start size)
    pushresult r none
  follow_plan fd buf buflen (invalid at) = do
    write_errno os.einval
    pure (
        nil
        ∷ string (
            lit "write: invalid attempt to access offset "
            ++ (lua.format_int (cast_int at)
                ++ (lit " in a buffer of length " ++ lua.format_int buflen)))
        ∷ integer os.einval
        ∷ [])

  unfoldable pub p_write : Binding W
  unfolding ◌>>=◌ checkint checkstring optinteger checknargs
  p_write args = do
    fd ← lift (checkint args 1)
    buf ← lift (checkstring args 2)
    let buflen = cast_int (pos (length buf))
    nbytes ← lift (optinteger args 3 buflen)
    offset ← lift (optinteger args 4 (pos 0))
    lift (checknargs args 4)
    let count =
        if not (eq_ℤ offset (pos 0)) && eq_type (arg_type args 3) LuaType.tnil
        then cast_long (buflen -ℤ offset)
        else nbytes
    follow_plan fd buf buflen (write_plan buflen count offset)

  -- from `errno = 0` on
  unfoldable pub read_block : Allocator W → ℤ → ℕ → Exec W (List Value)
  unfolding ◌>>=◌ pusherror
  read_block mem fd count = do
    write_errno (pos 0)
    buf ← allocate mem count
    if is_null buf && ltb 0 count then pusherror (some (lit "lalloc")) else do
      (ret, bytes) ← call (os.read fd count)
      release mem buf count
      if is_negative ret then pusherror none else pure (string (take (pos_part ret) bytes) ∷ [])

  unfoldable pub p_read : Allocator W → Binding W
  p_read mem args = do
    fd ← lift (checkint args 1)
    count ← lift (checkinteger args 2)
    lift (checknargs args 2)
    read_block mem fd (cast_size count)

  abbrev pub or_error : Option Bytes → Exec W (List Value)
  or_error none = pusherror (some (lit "."))
  or_error (some cwd) = pure (string cwd ∷ [])

  -- the branch without __GNU__, which is the Hurd's
  unfoldable pub getcwd_block : Allocator W → ℕ → Exec W (List Value)
  unfolding ◌>>=◌ pusherror
  getcwd_block mem size = do
    b ← allocate mem (size + 1)
    if is_null b
        then pusherror (some (lit "lalloc"))
        else do r ← call (os.getcwd size); release mem b (size + 1); or_error r

  -- the branch without __GNU__, which is the Hurd's
  unfoldable pub p_getcwd : Allocator W → Binding W
  p_getcwd mem args = do
    n ← call (os.pathconf (lit ".") os.pc_path_max)
    lift (checknargs args 0)
    getcwd_block mem (if eq_ℤ n minus_one then os.posix_path_max else cast_size n)
