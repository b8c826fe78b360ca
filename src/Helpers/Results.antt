-- ===== src/Helpers/Results.antt =====
-- ext/include/_helpers.c: what a binding hands back to Lua.
use luaposix.Base.{
  Bytes, List, Option, [], cast_int, eq_ℤ, if◌then◌else◌, lit, minus_one, none, some, ℤ, ◌++◌, ◌∷◌,
}
use luaposix.Lua.{
  Exec, Host, Table, Value, empty, integer, nil, pure, read_errno, set_field, string, table, ◌>>=◌,
}

-- a table made by lua_createtable and a run of pushintegerfield or pushstringfield
unfoldable pub set_fields : Table → List (Bytes × Value) → Table
unfolding set_field
set_fields t [] = t
set_fields t ((k, v) ∷ fields) = set_fields (set_field k v t) fields

-- settypemetatable (type)
unfoldable pub typed_table : Bytes → List (Bytes × Value) → Value
unfolding set_fields
typed_table type fields = table type (set_fields empty fields)

module _ {W : Type 0} where
  unfoldable pub pushintegerresult : ℤ → Exec W (List Value)
  unfolding pure
  pushintegerresult n = pure (integer n ∷ [])

  unfoldable pub pushstringresult : Bytes → Exec W (List Value)
  unfolding pure
  pushstringresult s = pure (string s ∷ [])

-- `none` as info is NULL
abbrev pub error_message : ⦃lua : Host⦄ → Option Bytes → ℤ → Bytes
error_message ⦃lua⦄ none errno = lua.strerror errno
error_message ⦃lua⦄ (some info) errno = info ++ (lit ": " ++ lua.strerror errno)

module _ {W : Type 0} ⦃lua : Host⦄ where
  unfoldable pub pusherror : Option Bytes → Exec W (List Value)
  unfolding ◌>>=◌
  pusherror info = do
    errno ← read_errno
    pure (nil ∷ string (error_message info errno) ∷ integer errno ∷ [])

  -- the parameter is an int: a wider result is converted before the test
  unfoldable pub pushresult : ℤ → Option Bytes → Exec W (List Value)
  unfolding pusherror pushintegerresult
  pushresult z info =
      let i = cast_int z in if eq_ℤ i minus_one then pusherror info else pushintegerresult i

  unfoldable pub binding_notimplemented : Bytes → Bytes → Exec W (List Value)
  unfolding pure
  binding_notimplemented fname libname = pure (
      nil
      ∷ string (
          lit "'"
          ++ (fname ++ (lit "' is not implemented by host " ++ (libname ++ lit " library"))))
      ∷ [])
