-- ===== src/Sys/Stat.antt =====
-- ext/posix/sys/stat.c. The tests on a mode are the system's macros.
use luaposix.Base.{
  Bytes, Every, List, [], cast_uint, done, eq_ℤ, if◌then◌else◌, lit, minus_one, pos, some, ℕ, ℤ,
  ◌∷◌, ◌▹◌,
}
use luaposix.Helpers.Args.{checkint, checkinteger, checknargs, checkstring, optinteger}
use luaposix.Helpers.Results.{pusherror, pushintegerresult, pushresult, typed_table}
use luaposix.Helpers.Validation.{Clean, Total, validation_rules}
use luaposix.Lua.{Args, Binding, Call, Exec, Host, Value, call, integer, lift, pure, ◌>>=◌, ◌>>◌}

pub record Stat : Type 0 where
  pub st_dev : ℤ
  pub st_ino : ℤ
  pub st_mode : ℤ
  pub st_nlink : ℤ
  pub st_uid : ℤ
  pub st_gid : ℤ
  pub st_rdev : ℤ
  pub st_size : ℤ
  pub st_blksize : ℤ
  pub st_blocks : ℤ
  pub st_atime : ℤ
  pub st_mtime : ℤ
  pub st_ctime : ℤ

pub record StatCalls (W : Type 0) : Type 0 where
  pub s_isblk : ℕ → ℤ
  pub s_ischr : ℕ → ℤ
  pub s_isdir : ℕ → ℤ
  pub s_isfifo : ℕ → ℤ
  pub s_islnk : ℕ → ℤ
  pub s_isreg : ℕ → ℤ
  pub s_issock : ℕ → ℤ
  pub chmod : Bytes → ℕ → Call W ℤ
  pub lstat : Bytes → Call W (ℤ × Stat)
  pub fstat : ℤ → Call W (ℤ × Stat)
  pub stat : Bytes → Call W (ℤ × Stat)
  pub mkdir : Bytes → ℕ → Call W ℤ
  pub mkfifo : Bytes → ℕ → Call W ℤ
  pub umask : ℕ → Call W ℕ

unfoldable pub pushstat : Stat → Value
unfolding typed_table
pushstat st = typed_table (lit "PosixStat") (
    (lit "st_dev", integer st.st_dev)
    ∷ (lit "st_ino", integer st.st_ino)
    ∷ (lit "st_mode", integer st.st_mode)
    ∷ (lit "st_nlink", integer st.st_nlink)
    ∷ (lit "st_uid", integer st.st_uid)
    ∷ (lit "st_gid", integer st.st_gid)
    ∷ (lit "st_rdev", integer st.st_rdev)
    ∷ (lit "st_size", integer st.st_size)
    ∷ (lit "st_blksize", integer st.st_blksize)
    ∷ (lit "st_blocks", integer st.st_blocks)
    ∷ (lit "st_atime", integer st.st_atime)
    ∷ (lit "st_mtime", integer st.st_mtime)
    ∷ (lit "st_ctime", integer st.st_ctime)
    ∷ [])

module _ ⦃lua : Host⦄ {W : Type 0} (os : StatCalls W) where
  -- the seven functions on modes have one body
  unfoldable pub mode_test : (ℕ → ℤ) → Binding W
  unfolding ◌>>=◌ checkinteger checknargs pushintegerresult
  mode_test test args = do
    lift (checknargs args 1)
    mode ← lift (checkinteger args 1)
    pushintegerresult (test (cast_uint mode))

  unfoldable pub p_chmod : Binding W
  unfolding ◌>>=◌ checkstring checknargs checkinteger pushresult
  p_chmod args = do
    path ← lift (checkstring args 1)
    lift (checknargs args 2)
    mode ← lift (checkinteger args 2)
    r ← call (os.chmod path (cast_uint mode))
    pushresult r (some path)

  -- what lstat, fstat and stat do with their result
  unfoldable pub stat_or_error : Bytes → ℤ × Stat → Exec W (List Value)
  unfolding pusherror pushstat
  stat_or_error info (r, s) =
      if eq_ℤ r minus_one then pusherror (some info) else pure (pushstat s ∷ [])

  unfoldable pub p_lstat : Binding W
  unfolding ◌>>=◌ checkstring checknargs stat_or_error
  p_lstat args = do
    path ← lift (checkstring args 1)
    lift (checknargs args 1)
    r ← call (os.lstat path)
    stat_or_error path r

  unfoldable pub p_fstat : Binding W
  unfolding ◌>>=◌ checkint checknargs stat_or_error
  p_fstat args = do
    fd ← lift (checkint args 1)
    lift (checknargs args 1)
    r ← call (os.fstat fd)
    stat_or_error (lit "fstat") r

  unfoldable pub p_stat : Binding W
  unfolding ◌>>=◌ checkstring checknargs stat_or_error
  p_stat args = do
    path ← lift (checkstring args 1)
    lift (checknargs args 1)
    r ← call (os.stat path)
    stat_or_error path r

  unfoldable pub p_mkdir : Binding W
  unfolding ◌>>=◌ checkstring checknargs optinteger pushresult
  p_mkdir args = do
    path ← lift (checkstring args 1)
    lift (checknargs args 2)
    mode ← lift (optinteger args 2 (pos 511))
    r ← call (os.mkdir path (cast_uint mode))
    pushresult r (some path)

  unfoldable pub p_mkfifo : Binding W
  unfolding ◌>>=◌ checkstring checknargs optinteger pushresult
  p_mkfifo args = do
    path ← lift (checkstring args 1)
    lift (checknargs args 2)
    mode ← lift (optinteger args 2 (pos 511))
    r ← call (os.mkfifo path (cast_uint mode))
    pushresult r (some path)

  unfoldable pub p_umask : Binding W
  unfolding ◌>>=◌ checkinteger checknargs pushintegerresult
  p_umask args = do
    lift (checknargs args 1)
    mode ← lift (checkinteger args 1)
    old ← call (os.umask (cast_uint mode))
    pushintegerresult (pos old)

  unfoldable pub posix_sys_stat_fns : List (Bytes × Binding W)
  unfolding mode_test
  posix_sys_stat_fns =
      (lit "S_ISBLK", mode_test os.s_isblk)
      ∷ (lit "S_ISCHR", mode_test os.s_ischr)
      ∷ (lit "S_ISDIR", mode_test os.s_isdir)
      ∷ (lit "S_ISFIFO", mode_test os.s_isfifo)
      ∷ (lit "S_ISLNK", mode_test os.s_islnk)
      ∷ (lit "S_ISREG", mode_test os.s_isreg)
      ∷ (lit "S_ISSOCK", mode_test os.s_issock)
      ∷ (lit "chmod", p_chmod)
      ∷ (lit "lstat", p_lstat)
      ∷ (lit "fstat", p_fstat)
      ∷ (lit "mkdir", p_mkdir)
      ∷ (lit "mkfifo", p_mkfifo)
      ∷ (lit "stat", p_stat)
      ∷ (lit "umask", p_umask)
      ∷ []

  mode_test-Clean : (test : ℕ → ℤ) (args : Args) → Clean (mode_test test args)
  unfolding mode_test
  mode_test-Clean test args = search validation_rules depth 14

  stat_or_error-Total : (info : Bytes) (r : ℤ × Stat) → Total (stat_or_error info r)
  unfolding stat_or_error
  stat_or_error-Total info (r, s) = search validation_rules depth 14

  chmod-Clean : (args : Args) → Clean (p_chmod args)
  unfolding p_chmod
  chmod-Clean args = search validation_rules depth 14

  lstat-Clean : (args : Args) → Clean (p_lstat args)
  unfolding p_lstat
  lstat-Clean args = search (validation_rules, stat_or_error-Total) depth 14

  fstat-Clean : (args : Args) → Clean (p_fstat args)
  unfolding p_fstat
  fstat-Clean args = search (validation_rules, stat_or_error-Total) depth 14

  mkdir-Clean : (args : Args) → Clean (p_mkdir args)
  unfolding p_mkdir
  mkdir-Clean args = search validation_rules depth 14

  mkfifo-Clean : (args : Args) → Clean (p_mkfifo args)
  unfolding p_mkfifo
  mkfifo-Clean args = search validation_rules depth 14

  stat-Clean : (args : Args) → Clean (p_stat args)
  unfolding p_stat
  stat-Clean args = search (validation_rules, stat_or_error-Total) depth 14

  umask-Clean : (args : Args) → Clean (p_umask args)
  unfolding p_umask
  umask-Clean args = search validation_rules depth 14

  -- For every function of posix.sys.stat: where a call from Lua raises an error, the process, errno
  -- and the mask of modes included, is as it was before the call.
  pub posix_sys_stat_fns-Clean :
      Every (λ (f : Bytes × Binding W). (args : Args) → Clean (f.1 args)) posix_sys_stat_fns
  unfolding posix_sys_stat_fns
  posix_sys_stat_fns-Clean =
      mode_test-Clean os.s_isblk
      ▹ mode_test-Clean os.s_ischr
      ▹ mode_test-Clean os.s_isdir
      ▹ mode_test-Clean os.s_isfifo
      ▹ mode_test-Clean os.s_islnk
      ▹ mode_test-Clean os.s_isreg
      ▹ mode_test-Clean os.s_issock
      ▹ chmod-Clean
      ▹ lstat-Clean
      ▹ fstat-Clean
      ▹ mkdir-Clean
      ▹ mkfifo-Clean
      ▹ stat-Clean
      ▹ umask-Clean
      ▹ done
