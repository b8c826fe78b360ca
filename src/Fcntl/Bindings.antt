-- ===== src/Fcntl/Bindings.antt =====
-- ext/posix/fcntl.c: Pfcntl, Popen and Pposix_fadvise. Pfcntl writes into the table that it is given;
-- it returns the table as it is then.
use luaposix.Base.{
  Bool, Bytes, List, [], cast_short, cast_uint, eq_ℤ, if◌then◌else◌, lit, minus_one, pos, some, ℕ,
  ℤ, ◌||◌, ◌∷◌,
}
use luaposix.Helpers.Args.{
  arg, checkint, checkinteger, checknargs, checkstring, lua_l_checktype, optint, optinteger,
  tointeger,
}
use luaposix.Helpers.Results.{pushresult, set_fields}
use luaposix.Lua.{
  Args, Binding, Call, Exec, Host, LuaType, Value, call, get_field, integer, lift, pure, table,
  ◌>>=◌, ◌>>◌,
}

pub record Flock : Type 0 where
  pub l_type : ℤ
  pub l_whence : ℤ
  pub l_start : ℤ
  pub l_len : ℤ
  pub l_pid : ℤ

pub record FcntlCalls (W : Type 0) : Type 0 where
  -- fcntl with a lock, which comes back; l_pid is not set before the call
  pub fcntl_lock : ℤ → ℤ → ℤ → ℤ → ℤ → ℤ → Call W (ℤ × Flock)
  pub fcntl_int : ℤ → ℤ → ℤ → Call W ℤ
  pub open_file : Bytes → ℤ → ℕ → Call W ℤ
  pub posix_fadvise : ℤ → ℤ → ℤ → ℤ → Call W ℤ
  pub f_setlk : ℤ
  pub f_setlkw : ℤ
  pub f_getlk : ℤ

abbrev pub lock_fields : Flock → List (Bytes × Value)
lock_fields l =
    (lit "l_type", integer l.l_type)
    ∷ (lit "l_whence", integer l.l_whence)
    ∷ (lit "l_start", integer l.l_start)
    ∷ (lit "l_len", integer l.l_len)
    ∷ (lit "l_pid", integer l.l_pid)
    ∷ []

abbrev pub with_lock : Value → Flock → Value
with_lock (table type t) l = table type (set_fields t (lock_fields l))
with_lock v l = v

module _ ⦃lua : Host⦄ {W : Type 0} (os : FcntlCalls W) where
  abbrev pub is_lock_command : ℤ → Bool
  is_lock_command cmd = eq_ℤ cmd os.f_setlk || (eq_ℤ cmd os.f_setlkw || eq_ℤ cmd os.f_getlk)

  -- the cases with a lock, up to the result of the call
  unfoldable pub lock_call : ℤ → ℤ → Value → Exec W (ℤ × Value)
  unfolding ◌>>=◌ get_field set_fields
  lock_call fd cmd t = do
    (r, l) ← call (
        os.fcntl_lock fd cmd (cast_short (tointeger (get_field (lit "l_type") t)))
          (cast_short (tointeger (get_field (lit "l_whence") t)))
          (tointeger (get_field (lit "l_start") t)) (tointeger (get_field (lit "l_len") t)))
    pure (r, with_lock t l)

  unfoldable pub p_fcntl : Args → Exec W (List Value × Value)
  unfolding ◌>>=◌ checkint checknargs lua_l_checktype optint pushresult
  p_fcntl args = do
    fd ← lift (checkint args 1)
    cmd ← lift (checkint args 2)
    lift (checknargs args 3)
    if is_lock_command cmd
        then (do
          lift (lua_l_checktype args 3 LuaType.ttable)
          (r, t) ← lock_call fd cmd (arg args 3)
          results ← pushresult r (some (lit "fcntl"))
          pure (results, t))
        else (do
          n ← lift (optint args 3 (pos 0))
          r ← call (os.fcntl_int fd cmd n)
          results ← pushresult r (some (lit "fcntl"))
          pure (results, arg args 3))

  unfoldable pub p_open : Binding W
  unfolding ◌>>=◌ checkstring checkint checknargs optinteger pushresult
  p_open args = do
    path ← lift (checkstring args 1)
    oflags ← lift (checkint args 2)
    lift (checknargs args 3)
    mode ← lift (optinteger args 3 (pos 511))
    r ← call (os.open_file path oflags (cast_uint mode))
    pushresult r (some path)

  unfoldable pub p_posix_fadvise : Binding W
  unfolding ◌>>=◌ checkint checkinteger checknargs pushresult
  p_posix_fadvise args = do
    fd ← lift (checkint args 1)
    offset ← lift (checkinteger args 2)
    len ← lift (checkinteger args 3)
    advice ← lift (checkint args 4)
    lift (checknargs args 4)
    r ← call (os.posix_fadvise fd offset len advice)
    pushresult (if eq_ℤ r (pos 0) then pos 0 else minus_one) (some (lit "posix_fadvise"))
