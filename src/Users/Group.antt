-- ===== src/Users/Group.antt =====
-- ext/posix/grp.c. The uid and the gid are unsigned integers of 32 bits.
use luaposix.Base.{
  Bytes, List, Option, [], cast_uint, eq_ℤ, if◌then◌else◌, lit, none, not, pos, some, suc, ℕ, ◌&&◌,
  ◌∷◌,
}
use luaposix.Helpers.Args.{checkinteger, checknargs, checkstring}
use luaposix.Helpers.Results.{pusherror, typed_table}
use luaposix.Lua.{
  Binding, Call, Exec, Host, Table, Value, call, empty, entry, integer, lift, nil, pure, read_errno,
  string, table, write_errno, ◌>>=◌, ◌>>◌,
}
use luaposix.Users.Passwd.{is_none, optional_field}

pub record Group : Type 0 where
  pub gr_gid : ℕ
  -- none is NULL
  pub gr_name : Option Bytes
  -- the strings of gr_mem before its NULL
  pub gr_mem : Option (List Bytes)

pub record GroupCalls (W : Type 0) : Type 0 where
  pub endgrent : Call W (Unit {0})
  pub getgrent : Call W (Option Group)
  pub getgrgid : ℕ → Call W (Option Group)
  pub getgrnam : Bytes → Call W (Option Group)
  pub setgrent : Call W (Unit {0})

abbrev pub members_table : ℕ → List Bytes → Table
members_table i [] = empty
members_table i (name ∷ names) = entry (integer (pos i)) (string name) (members_table (suc i) names)

abbrev pub members_field : Option (List Bytes) → List (Bytes × Value)
members_field none = []
members_field (some names) = (lit "gr_mem", table [] (members_table 1 names)) ∷ []

unfoldable pub pushgroup : Option Group → Value
unfolding typed_table
pushgroup none = nil
pushgroup (some g) = typed_table (lit "PosixGroup") (
    (lit "gr_gid", integer (pos g.gr_gid))
    ∷ optional_field (lit "gr_name") g.gr_name (members_field g.gr_mem))

module _ ⦃lua : Host⦄ {W : Type 0} (os : GroupCalls W) where
  unfoldable pub p_endgrent : Binding W
  unfolding ◌>>=◌ checknargs
  p_endgrent args = do lift (checknargs args 0); call os.endgrent; pure []

  unfoldable pub p_getgrent : Binding W
  unfolding ◌>>=◌ checknargs pushgroup
  p_getgrent args = do
    lift (checknargs args 0)
    g ← call os.getgrent
    errno ← read_errno
    if is_none g && eq_ℤ errno (pos 0)
        then (do call os.endgrent; pure (pushgroup g ∷ []))
        else pure (pushgroup g ∷ [])

  -- the entry, or an error where there is none and errno was set
  unfoldable pub group_or_error : Bytes → Option Group → Exec W (List Value)
  unfolding ◌>>=◌ pusherror pushgroup
  group_or_error info g = do
    errno ← read_errno
    if is_none g && not (eq_ℤ errno (pos 0)) then pusherror (some info) else pure (pushgroup g ∷ [])

  unfoldable pub p_getgrgid : Binding W
  unfolding ◌>>=◌ checkinteger checknargs group_or_error
  p_getgrgid args = do
    gid ← lift (checkinteger args 1)
    lift (checknargs args 1)
    write_errno (pos 0)
    g ← call (os.getgrgid (cast_uint gid))
    group_or_error (lit "getgrgid") g

  unfoldable pub p_getgrnam : Binding W
  unfolding ◌>>=◌ checkstring checknargs group_or_error
  p_getgrnam args = do
    name ← lift (checkstring args 1)
    lift (checknargs args 1)
    write_errno (pos 0)
    g ← call (os.getgrnam name)
    group_or_error (lit "getgrnam") g

  unfoldable pub p_setgrent : Binding W
  unfolding ◌>>=◌ checknargs
  p_setgrent args = do lift (checknargs args 0); call os.setgrent; pure []
