-- ===== src/Unistd/Ids.antt =====
-- ext/posix/unistd.c: users and groups.
use luaposix.Base.{
  Bytes, List, Option, [], cast_int, cast_uint, eq_ℤ, if◌then◌else◌, is_negative, lit, none, pos,
  pos_part, some, suc, take, ℕ, ℤ, ◌-◌, ◌==◌, ◌^◌, ◌∷◌,
}
use luaposix.Helpers.Args.{
  arg, argtypeerror, badoption, checkinteger, checknargs, checkstring, is_none_or_nil,
}
use luaposix.Helpers.Results.{pusherror, pushintegerresult, pushresult}
use luaposix.Lua.{
  Args, Binding, Call, Exec, Host, Table, Value, call, empty, entry, float, int, integer, lift, nil,
  number, pure, string, table, ◌>>=◌, ◌>>◌,
}
use luaposix.Unistd.Calls.{UnistdCalls}

-- (uid_t) -1 and (gid_t) -1
abbrev pub no_id : ℕ
no_id = 2 ^ 32 - 1

abbrev or_no_id : Option ℕ → ℕ
or_no_id none = no_id
or_no_id (some id) = id

module _ ⦃lua : Host⦄ {W : Type 0} (os : UnistdCalls W) where
  -- an id from a value that is not nil, with the lookup by name that the caller makes; a float is no
  -- integer to lua_isinteger, but a string to lua_isstring
  abbrev pub id_of_value : (Bytes → Call W (Option ℕ)) → Args → ℕ → Value → Exec W ℕ
  id_of_value find args i (number (int z)) = pure (cast_uint z)
  id_of_value find args i (number (float x)) = do
    p ← call (find (lua.number_to_string (float x)))
    pure (or_no_id p)
  id_of_value find args i (string s) = do p ← call (find s); pure (or_no_id p)
  id_of_value find args i _ = lift (argtypeerror args i (lit "integer, nil or string"))

  abbrev pub read_id : (Bytes → Call W (Option ℕ)) → Args → ℕ → Exec W ℕ
  read_id find args i =
      if is_none_or_nil args i then pure no_id else id_of_value find args i (arg args i)

  unfoldable pub mygetuid : Args → ℕ → Exec W ℕ
  unfolding ◌>>=◌ argtypeerror
  mygetuid args i = read_id os.getpwnam args i

  unfoldable pub mygetgid : Args → ℕ → Exec W ℕ
  unfolding ◌>>=◌ argtypeerror
  mygetgid args i = read_id os.getgrnam args i

  unfoldable pub p_chown : Binding W
  unfolding ◌>>=◌ checkstring mygetuid mygetgid checknargs pushresult
  p_chown args = do
    path ← lift (checkstring args 1)
    uid ← mygetuid args 2
    gid ← mygetgid args 3
    lift (checknargs args 3)
    r ← call (os.chown path uid gid)
    pushresult r (some path)

  unfoldable pub p_lchown : Binding W
  unfolding ◌>>=◌ checkstring mygetuid mygetgid checknargs pushresult
  p_lchown args = do
    path ← lift (checkstring args 1)
    uid ← mygetuid args 2
    gid ← mygetgid args 3
    lift (checknargs args 3)
    r ← call (os.lchown path uid gid)
    pushresult r (some path)

  -- the first character of `what`, the terminating 0 for an empty string
  abbrev first_char : Bytes → ℕ
  first_char [] = 0
  first_char (c ∷ s) = c

  unfoldable pub p_setpid : Binding W
  unfolding ◌>>=◌ checkstring checkinteger mygetuid mygetgid checknargs pushresult badoption
      cast_int
  p_setpid args = do
    what ← lift (checkstring args 1)
    let c = first_char what
    lift (checknargs args (if c == b'p' then 3 else 2))
    if c == b'U'
        then (do id ← mygetuid args 2; r ← call (os.seteuid id); pushresult r none)
        else if c == b'u'
        then (do id ← mygetuid args 2; r ← call (os.setuid id); pushresult r none)
        else if c == b'G'
        then (do id ← mygetgid args 2; r ← call (os.setegid id); pushresult r none)
        else if c == b'g'
        then (do id ← mygetgid args 2; r ← call (os.setgid id); pushresult r none)
        else if c == b's'
        then (do r ← call os.setsid; pushresult r none)
        else if c == b'p'
        then (do
          pid ← lift (checkinteger args 2)
          pgid ← lift (checkinteger args 3)
          r ← call (os.setpgid (cast_int pid) (cast_int pgid))
          pushresult r none)
        else lift (badoption 1 (lit "id") c)

  unfoldable pub p_getegid : Binding W
  unfolding ◌>>=◌ checknargs pushintegerresult
  p_getegid args = do lift (checknargs args 0); r ← call os.getegid; pushintegerresult r

  unfoldable pub p_geteuid : Binding W
  unfolding ◌>>=◌ checknargs pushintegerresult
  p_geteuid args = do lift (checknargs args 0); r ← call os.geteuid; pushintegerresult r

  unfoldable pub p_getgid : Binding W
  unfolding ◌>>=◌ checknargs pushintegerresult
  p_getgid args = do lift (checknargs args 0); r ← call os.getgid; pushintegerresult r

  unfoldable pub p_getuid : Binding W
  unfolding ◌>>=◌ checknargs pushintegerresult
  p_getuid args = do lift (checknargs args 0); r ← call os.getuid; pushintegerresult r

  -- lua_newtable or lua_createtable, and lua_rawseti of each slot
  abbrev groups_from : ℕ → List ℤ → Table
  groups_from i [] = empty
  groups_from i (g ∷ groups) = entry (integer (pos i)) (integer g) (groups_from (suc i) groups)

  unfoldable pub p_getgroups : Binding W
  unfolding ◌>>=◌ checknargs pusherror
  p_getgroups args = do
    n_group_slots ← call os.count_groups
    lift (checknargs args 0)
    if is_negative n_group_slots
        then pusherror none
        else if eq_ℤ n_group_slots (pos 0)
        then pure (table [] empty ∷ [])
        else do
          (n_groups, group) ← call (os.getgroups n_group_slots)
          if is_negative n_groups
              then pusherror none
              else pure (table [] (groups_from 1 (take (pos_part n_groups) group)) ∷ [])

  unfoldable pub p_getlogin : Binding W
  unfolding ◌>>=◌ checknargs
  p_getlogin args = do
    lift (checknargs args 0)
    r ← call os.getlogin
    pure ((elim r [ none ↦ nil | some s ↦ string s ]) ∷ [])
