-- ===== src/Stdio/Bindings.antt =====
-- ext/posix/stdio.c: file handles of the io library. A handle is userdata with a FILE pointer in it.
use luaposix.Base.{
  Bool, Bytes, List, Option, [], eq_ℤ, false, get_elem?, length, lit, none, pos, some, suc, true,
  zero, ℕ, ℤ, ◌++◌, ◌∷◌,
}
use luaposix.Helpers.Args.{arg, argtypeerror, checkint, checknargs, checkstring}
use luaposix.Helpers.Results.{pusherror, pushresult, pushstringresult}
use luaposix.Lua.{
  Args, Binding, Call, Exec, Host, Outcome, Value, boolean, call, lift, ok, pure, userdata, ◌>>=◌,
  ◌>>◌,
}

-- the process with the pointers of the handles, by the number of their userdata; none is NULL
pub record Files (W : Type 0) : Type 0 where
  pub handles : List (Option ℕ)
  pub system : W

pub record StdioCalls (W : Type 0) : Type 0 where
  pub ctermid : Call W Bytes
  -- NULL is handed on
  pub fileno : Option ℕ → Call W ℤ
  pub fclose : ℕ → Call W ℤ
  pub fdopen : ℤ → Bytes → Call W (Option ℕ)
  pub rename : Bytes → Bytes → Call W ℤ

abbrev pub on_files : {W A : Type 0} → Call W A → Call (Files W) A
on_files c m =
    let (a, m') = c (record { errno = m.errno; kernel = m.kernel.system }) in
    (a, record { errno = m'.errno; kernel = record (m.kernel) { system = m'.kernel } })

-- a pointer is written into a handle
abbrev pub set_handle : ℕ → Option ℕ → List (Option ℕ) → List (Option ℕ)
set_handle id f [] = []
set_handle zero f (h ∷ handles) = f ∷ handles
set_handle (suc id) f (h ∷ handles) = h ∷ set_handle id f handles

module _ {W : Type 0} where
  unfoldable pub put_handle : ℕ → Option ℕ → Exec (Files W) (Unit {0})
  put_handle id f w = (
    ok tt,
    record w { kernel = record (w.kernel) { handles = set_handle id f w.kernel.handles } },
  )

  -- lua_newuserdata, with the pointer that fdopen gives
  unfoldable pub new_handle : Option ℕ → Exec (Files W) ℕ
  new_handle f w = (
    ok (length w.kernel.handles),
    record w { kernel = record (w.kernel) { handles = w.kernel.handles ++ (f ∷ []) } },
  )

module _ ⦃lua : Host⦄ {W : Type 0} (os : StdioCalls W) where
  -- luaL_checkudata (L, 1, LUA_FILEHANDLE): the number of the handle, and its pointer
  abbrev pub handle_at : Args → ℕ → Option (Option ℕ) → Outcome (ℕ × Option ℕ)
  handle_at args id none = argtypeerror args 1 (lit "FILE*")
  handle_at args id (some f) = ok (id, f)

  abbrev pub check_handle : Args → Value → Exec (Files W) (ℕ × Option ℕ)
  check_handle args (userdata id) w = (handle_at args id (get_elem? w.kernel.handles id), w)
  check_handle args v w = (argtypeerror args 1 (lit "FILE*"), w)

  -- luaL_fileresult of lauxlib.h, without a file name
  abbrev pub fileresult : Bool → Exec (Files W) (List Value)
  fileresult true = pure (boolean true ∷ [])
  fileresult false = pusherror none

  unfoldable pub p_ctermid : Binding (Files W)
  unfolding ◌>>=◌ checknargs pushstringresult
  p_ctermid args = do lift (checknargs args 0); s ← call (on_files os.ctermid); pushstringresult s

  unfoldable pub p_fileno : Binding (Files W)
  unfolding ◌>>=◌ argtypeerror checknargs pushresult
  p_fileno args = do
    (id, f) ← check_handle args (arg args 1)
    lift (checknargs args 1)
    r ← call (on_files (os.fileno f))
    pushresult r none

  -- from the test of the pointer on
  unfoldable pub close_pointer : ℕ → Option ℕ → Exec (Files W) (List Value)
  unfolding ◌>>=◌ put_handle pusherror
  close_pointer id none = pure []
  close_pointer id (some f) = do
    res ← call (on_files (os.fclose f))
    put_handle id none
    fileresult (eq_ℤ res (pos 0))

  unfoldable pub stdio_fclose : Binding (Files W)
  unfolding ◌>>=◌ argtypeerror close_pointer
  stdio_fclose args = do (id, f) ← check_handle args (arg args 1); close_pointer id f

  abbrev pub file_or_error : ℕ → Option ℕ → Exec (Files W) (List Value)
  file_or_error id none = pusherror (some (lit "fdopen"))
  file_or_error id (some f) = pure (userdata id ∷ [])

  unfoldable pub p_fdopen : Binding (Files W)
  unfolding ◌>>=◌ checkint checkstring checknargs new_handle pusherror
  p_fdopen args = do
    fd ← lift (checkint args 1)
    mode ← lift (checkstring args 2)
    lift (checknargs args 2)
    f ← call (on_files (os.fdopen fd mode))
    id ← new_handle f
    file_or_error id f

  unfoldable pub p_rename : Binding (Files W)
  unfolding ◌>>=◌ checkstring checknargs pushresult
  p_rename args = do
    oldpath ← lift (checkstring args 1)
    newpath ← lift (checkstring args 2)
    lift (checknargs args 2)
    r ← call (on_files (os.rename oldpath newpath))
    pushresult r none
