-- ===== src/Stdlib/Bindings.antt =====
-- ext/posix/stdlib.c: the other bindings.
use luaposix.Base.{
  Bool, Bytes, List, Option, [], if◌then◌else◌, lit, none, pos, some, ℤ, ◌||◌, ◌∙◌, ◌∷◌, ◌≡◌,
}
use luaposix.Helpers.Args.{arg, checkint, checknargs, checkstring, is_none_or_nil, optstring}
use luaposix.Helpers.Results.{pusherror, pushresult, pushstringresult}
use luaposix.Lua.{
  Binding, Call, Exec, Host, Machine, Table, Value, call, empty, get_entry, lift, nil, ok, pure,
  string, table, to_boolean, ◌>>=◌, ◌>>◌,
}
use luaposix.Stdlib.Environment.{
  NamesNoEquals, environ_table, get_entry-environ_table, joined, last_value, value_in-joined,
}

pub record StdlibCalls (W : Type 0) : Type 0 where
  -- it does not come back
  pub abort : Call W (Unit {0})
  -- the strings of environ
  pub environ : Call W (List Bytes)
  pub getenv : Bytes → Call W (Option Bytes)
  pub grantpt : ℤ → Call W ℤ
  pub open_file : Bytes → ℤ → Call W ℤ
  pub ptsname : ℤ → Call W (Option Bytes)
  pub realpath : Bytes → Call W (Option Bytes)
  pub unsetenv : Bytes → Call W ℤ
  pub setenv : Bytes → Bytes → Bool → Call W ℤ
  pub unlockpt : ℤ → Call W ℤ

-- lua_pushstring, where NULL is nil
abbrev pub string_or_nil : Option Bytes → Value
string_or_nil none = nil
string_or_nil (some s) = string s

module _ ⦃lua : Host⦄ {W : Type 0} (os : StdlibCalls W) where
  abbrev pub name_of : Option Bytes → Bytes
  name_of none = []
  name_of (some s) = s

  unfoldable pub p_abort : Binding W
  unfolding ◌>>=◌ checknargs
  p_abort args = do lift (checknargs args 0); call os.abort; pure []

  unfoldable pub p_getenv : Binding W
  unfolding ◌>>=◌ checknargs optstring environ_table
  p_getenv args = do
    lift (checknargs args 1)
    if is_none_or_nil args 1
        then (do strings ← call os.environ; pure (table [] (environ_table empty strings) ∷ []))
        else (do
          name ← lift (optstring args 1 none)
          value ← call (os.getenv (name_of name))
          pure (string_or_nil value ∷ []))

  unfoldable pub p_grantpt : Binding W
  unfolding ◌>>=◌ checkint checknargs pushresult
  p_grantpt args = do
    fd ← lift (checkint args 1)
    lift (checknargs args 1)
    r ← call (os.grantpt fd)
    pushresult r (some (lit "grantpt"))

  unfoldable pub p_openpt : Binding W
  unfolding ◌>>=◌ checkint checknargs pushresult
  p_openpt args = do
    flags ← lift (checkint args 1)
    lift (checknargs args 1)
    r ← call (os.open_file (lit "/dev/ptmx") flags)
    pushresult r none

  -- NULL is an error, with the words of the binding
  abbrev pub string_or_error : Bytes → Option Bytes → Exec W (List Value)
  string_or_error info none = pusherror (some info)
  string_or_error info (some s) = pushstringresult s

  unfoldable pub p_ptsname : Binding W
  unfolding ◌>>=◌ checkint checknargs pusherror pushstringresult
  p_ptsname args = do
    fd ← lift (checkint args 1)
    lift (checknargs args 1)
    slave ← call (os.ptsname fd)
    string_or_error (lit "getptsname") slave

  unfoldable pub p_realpath : Binding W
  unfolding ◌>>=◌ checkstring checknargs pusherror pushstringresult
  p_realpath args = do
    lift (checknargs args 1)
    path ← lift (checkstring args 1)
    s ← call (os.realpath path)
    string_or_error (lit "realpath") s

  abbrev pub change_variable : Bytes → Option Bytes → Bool → Exec W (List Value)
  change_variable name none overwrite = do r ← call (os.unsetenv name); pushresult (pos 0) none
  change_variable name (some value) overwrite = do
    r ← call (os.setenv name value overwrite)
    pushresult r none

  unfoldable pub p_setenv : Binding W
  unfolding ◌>>=◌ checkstring optstring checknargs pushresult
  p_setenv args = do
    name ← lift (checkstring args 1)
    value ← lift (optstring args 2 none)
    lift (checknargs args 3)
    change_variable name value (is_none_or_nil args 3 || to_boolean (arg args 3))

  unfoldable pub p_unlockpt : Binding W
  unfolding ◌>>=◌ checkint checknargs pushresult
  p_unlockpt args = do
    fd ← lift (checkint args 1)
    lift (checknargs args 1)
    r ← call (os.unlockpt fd)
    pushresult r (some (lit "unlockpt"))

  -- In an environment of variables whose names have no '=', `getenv` without a name returns a table
  -- that has for each name the value of its last variable, whatever is in it, and nil for a name that
  -- no variable has.
  pub getenv_returns_variables :
      (w w' : Machine W) (vars : List (Bytes × Bytes))
      → NamesNoEquals vars
      → os.environ w ≡ (joined vars, w')
      → (t : Table) × (p_getenv [] w ≡ (ok (table [] t ∷ []), w'))
        × ((name : Bytes) → get_entry name t ≡ last_value name nil vars)
  unfolding p_getenv get_entry
  getenv_returns_variables w w' vars h e = (
    environ_table empty (joined vars),
    rw e,
    λ name. get_entry-environ_table name (joined vars) empty ∙ value_in-joined name nil vars h,
  )
