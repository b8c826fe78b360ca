-- ===== src/Unistd/Process.antt =====
-- ext/posix/unistd.c: processes, and what is left of the system.
use luaposix.Base.{
  Bool, Bytes, List, Option, [], cast_int, cast_uint, false, if◌then◌else◌, length, lit, ltb, none,
  not, pos, some, suc, true, until_zero, zero, ℕ, ◌∷◌,
}
use luaposix.Helpers.Args.{
  arg, arg_type, argtypeerror, checkint, checkinteger, checknargs, checkstring, tolstring,
}
use luaposix.Helpers.Results.{pusherror, pushintegerresult, pushresult}
use luaposix.Lua.{
  Args, Binding, Exec, Host, LuaType, Value, call, eq_type, err, get_index, lift, nil, ok, pure,
  run_error, string, ◌>>=◌, ◌>>◌,
}
use luaposix.Unistd.Calls.{UnistdCalls}

module _ ⦃lua : Host⦄ {W : Type 0} (os : UnistdCalls W) where
  unfoldable pub p_alarm : Binding W
  unfolding ◌>>=◌ checkint checknargs pushintegerresult
  p_alarm args = do
    seconds ← lift (checkint args 1)
    lift (checknargs args 1)
    r ← call (os.alarm (cast_uint seconds))
    pushintegerresult (pos r)

  -- argv[0]: the entry at 0 if it is a string
  abbrev pub argv_zero : Bytes → Value → Bytes
  argv_zero path (string s) = s
  argv_zero path _ = path

  -- argv[1] to argv[n], by the integer keys from `i` on; what is no string or number is NULL
  abbrev pub argv_from : ℕ → ℕ → Value → List (Option Bytes)
  argv_from zero i t = []
  argv_from (suc n) i t = tolstring (get_index i t) ∷ argv_from n (suc i) t

  -- the strings before the first NULL are what the new process gets
  abbrev pub until_null : List (Option Bytes) → List (Option Bytes)
  until_null [] = []
  until_null (none ∷ argv) = []
  until_null (some s ∷ argv) = some s ∷ until_null argv

  -- `use_shell` is that of the source: whether execvp searches PATH
  unfoldable pub runexec : Args → Bool → Exec W (List Value)
  unfolding ◌>>=◌ checkstring checknargs argtypeerror pusherror
  runexec args use_shell = do
    path ← lift (checkstring args 1)
    lift (checknargs args 2)
    let t = arg args 2
    if not (eq_type (arg_type args 2) LuaType.ttable)
        then lift (argtypeerror args 2 (lit "table"))
        else do
          let argv = some (argv_zero path (get_index 0 t)) ∷ argv_from (lua.objlen t) 1 t
          call (
              if use_shell
              then os.execvp path (until_null argv)
              else os.execv path (until_null argv))
          pusherror (some path)

  unfoldable pub p_exec : Binding W
  unfolding runexec
  p_exec args = runexec args false

  unfoldable pub p_execp : Binding W
  unfolding runexec
  p_execp args = runexec args true

  unfoldable pub p__exit : Binding W
  unfolding ◌>>=◌ checkinteger checknargs
  p__exit args = do
    ret ← lift (checkinteger args 1)
    lift (checknargs args 1)
    call (os.leave (cast_int ret))
    pure []

  -- the salt is measured before the number of arguments is checked
  unfoldable pub p_crypt : Binding W
  unfolding ◌>>=◌ checkstring checknargs
  p_crypt args = do
    str ← lift (checkstring args 1)
    salt ← lift (checkstring args 2)
    lift (
        if ltb (length (until_zero salt)) 2 then err (run_error (lit "not enough salt")) else ok tt)
    lift (checknargs args 2)
    r ← call (os.crypt (until_zero str) (until_zero salt))
    pure ((elim r [ none ↦ nil | some s ↦ string s ]) ∷ [])

  unfoldable pub p_fork : Binding W
  unfolding ◌>>=◌ checknargs pushresult
  p_fork args = do lift (checknargs args 0); r ← call os.fork; pushresult r none

  unfoldable pub p_getpgrp : Binding W
  unfolding ◌>>=◌ checknargs pushintegerresult
  p_getpgrp args = do lift (checknargs args 0); r ← call os.getpgrp; pushintegerresult r

  unfoldable pub p_getpid : Binding W
  unfolding ◌>>=◌ checknargs pushintegerresult
  p_getpid args = do lift (checknargs args 0); r ← call os.getpid; pushintegerresult r

  unfoldable pub p_getppid : Binding W
  unfolding ◌>>=◌ checknargs pushintegerresult
  p_getppid args = do lift (checknargs args 0); r ← call os.getppid; pushintegerresult r

  unfoldable pub p_gethostid : Binding W
  unfolding ◌>>=◌ checknargs pushintegerresult
  p_gethostid args = do lift (checknargs args 0); r ← call os.gethostid; pushintegerresult r

  unfoldable pub p_nice : Binding W
  unfolding ◌>>=◌ checkint checknargs pushresult
  p_nice args = do
    inc ← lift (checkint args 1)
    lift (checknargs args 1)
    r ← call (os.nice inc)
    pushresult r (some (lit "nice"))

  unfoldable pub p_sleep : Binding W
  unfolding ◌>>=◌ checkint checknargs pushintegerresult
  p_sleep args = do
    seconds ← lift (checkint args 1)
    lift (checknargs args 1)
    r ← call (os.sleep (cast_uint seconds))
    pushintegerresult (pos r)

  unfoldable pub p_sync : Binding W
  unfolding ◌>>=◌ checknargs
  p_sync args = do lift (checknargs args 0); call os.sync; pure []

  unfoldable pub p_sysconf : Binding W
  unfolding ◌>>=◌ checkint checknargs pushintegerresult
  p_sysconf args = do
    lift (checknargs args 1)
    name ← lift (checkint args 1)
    r ← call (os.sysconf name)
    pushintegerresult r
