-- ===== src/Unistd/Paths.antt =====
-- ext/posix/unistd.c: files by their path.
use luaposix.Base.{
  Bytes, Option, [], bit_or, false, if◌then◌else◌, is_negative, length, lit, none, not, pos,
  pos_part, some, take, ℕ, ◌++◌, ◌==◌, ◌∷◌,
}
use luaposix.Helpers.Args.{
  badoption, checkint, checkinteger, checknargs, checkstring, optboolean, optstring,
}
use luaposix.Helpers.Results.{pusherror, pushintegerresult, pushresult}
use luaposix.Lua.{
  Binding, Host, Outcome, call, integer, lift, nil, ok, pure, string, write_errno, ◌>>=◌, ◌>>◌,
}
use luaposix.Unistd.Calls.{UnistdCalls}

module _ ⦃lua : Host⦄ {W : Type 0} (os : UnistdCalls W) where
  -- the switch on one character of the mode; `none` is badoption
  abbrev pub access_step : ℕ → ℕ → Option ℕ
  access_step mode c =
      if c == b' '
      then some mode
      else if c == b'r'
      then some (bit_or mode os.r_ok)
      else if c == b'w'
      then some (bit_or mode os.w_ok)
      else if c == b'x'
      then some (bit_or mode os.x_ok)
      else if c == b'f'
      then some (bit_or mode os.f_ok)
      else none

  -- the loop over the mode string, from `mode`; it ends at a zero byte
  unfoldable pub access_mode : ℕ → Bytes → Outcome ℕ
  unfolding badoption
  access_mode mode [] = ok mode
  access_mode mode (c ∷ s) = elim (access_step mode c) [
    | some mode' ↦ access_mode mode' s
    | none ↦ if c == 0 then ok mode else badoption 2 (lit "mode") c
  ]

  -- optstring with a default that is no NULL
  abbrev bytes_of : Option Bytes → Bytes
  bytes_of none = []
  bytes_of (some s) = s

  unfoldable pub p_access : Binding W
  unfolding ◌>>=◌ checkstring checknargs optstring access_mode pushresult
  p_access args = do
    path ← lift (checkstring args 1)
    lift (checknargs args 2)
    s ← lift (optstring args 2 (some (lit "f")))
    mode ← lift (access_mode os.f_ok (bytes_of s))
    r ← call (os.access path mode)
    pushresult r (some path)

  unfoldable pub p_chdir : Binding W
  unfolding ◌>>=◌ checkstring checknargs pushresult
  p_chdir args = do
    path ← lift (checkstring args 1)
    lift (checknargs args 1)
    r ← call (os.chdir path)
    pushresult r (some path)

  unfoldable pub p_link : Binding W
  unfolding ◌>>=◌ checkstring optboolean checknargs pushresult
  p_link args = do
    oldpath ← lift (checkstring args 1)
    newpath ← lift (checkstring args 2)
    symbolicp ← lift (optboolean args 3 false)
    lift (checknargs args 3)
    r ← call (if symbolicp then os.symlink oldpath newpath else os.link oldpath newpath)
    pushresult r none

  unfoldable pub p_linkat : Binding W
  unfolding ◌>>=◌ checkstring checkint checknargs pushresult
  p_linkat args = do
    olddirfd ← lift (checkint args 1)
    oldpath ← lift (checkstring args 2)
    newdirfd ← lift (checkint args 3)
    newpath ← lift (checkstring args 4)
    flags ← lift (checkint args 5)
    lift (checknargs args 5)
    r ← call (os.linkat olddirfd oldpath newdirfd newpath flags)
    pushresult r none

  unfoldable pub p_pathconf : Binding W
  unfolding ◌>>=◌ checkstring checkint checknargs pushintegerresult
  p_pathconf args = do
    path ← lift (checkstring args 1)
    lift (checknargs args 2)
    name ← lift (checkint args 2)
    r ← call (os.pathconf path name)
    pushintegerresult r

  unfoldable pub p_readlink : Binding W
  unfolding ◌>>=◌ checkstring checknargs pusherror
  p_readlink args = do
    path ← lift (checkstring args 1)
    lift (checknargs args 1)
    write_errno (pos 0)
    (r, mode) ← call (os.lstat_mode path)
    if is_negative r
        then pusherror (some path)
        else if not (os.is_link mode)
        then pure (nil ∷ string (path ++ lit ": not a symbolic link") ∷ integer os.einval ∷ [])
        else do
          (n, b) ← call (os.readlink path os.path_max)
          if is_negative n
              then pusherror (some (lit "readlink"))
              else pure (string (take (pos_part n) b) ∷ [])

  unfoldable pub p_rmdir : Binding W
  unfolding ◌>>=◌ checkstring checknargs pushresult
  p_rmdir args = do
    path ← lift (checkstring args 1)
    lift (checknargs args 1)
    r ← call (os.rmdir path)
    pushresult r (some path)

  unfoldable pub p_unlink : Binding W
  unfolding ◌>>=◌ checkstring checknargs pushresult
  p_unlink args = do
    path ← lift (checkstring args 1)
    lift (checknargs args 1)
    r ← call (os.unlink path)
    pushresult r (some path)

  unfoldable pub p_truncate : Binding W
  unfolding ◌>>=◌ checkstring checkinteger checknargs pushresult
  p_truncate args = do
    path ← lift (checkstring args 1)
    length ← lift (checkinteger args 2)
    lift (checknargs args 2)
    r ← call (os.truncate path length)
    pushresult r (some path)
