-- ===== src/Helpers/Fields.antt =====
-- ext/include/_helpers.c: the checks on the fields of a table argument.
use luaposix.Base.{
  Bool, Bytes, List, Option, [], cast_int, eq_bytes, false, if◌then◌else◌, lit, none, some,
  until_zero, ℕ, ℤ, ◌++◌, ◌||◌, ◌∷◌,
}
use luaposix.Helpers.Args.{argcheck, argerror, tointeger, tolstring}
use luaposix.Lua.{Host, LuaType, Outcome, Value, entries, eq_type, get_field, ok, table, type_of}
use luaposix.Lua.Checks.{◌>>=◌, ◌>>◌}
use luaposix.Posix.LegacyTime.{index}

-- the entries that lua_next visits
abbrev pub table_entries : Value → List (Value × Value)
table_entries (table _ t) = entries t
table_entries _ = []

abbrev pub is_listed : Bytes → List Bytes → Bool
is_listed k [] = false
is_listed k (s ∷ fields) = eq_bytes s k || is_listed k fields

-- the loop of checkismember over S; STREQ reads the key up to its first zero
abbrev pub is_member : Bytes → List Bytes → Bool
is_member k fields = is_listed (until_zero k) fields

module _ ⦃lua : Host⦄ where
  unfoldable pub checkfieldtype : Value → ℕ → Bytes → LuaType → Bytes → Outcome Value
  unfolding get_field
  checkfieldtype v index k expect_type expected =
      let field = get_field k v in
      let got_type = type_of field in
      do
        argcheck (eq_type got_type expect_type) index (
            expected
            ++ (lit " expected for field '"
                ++ (k
                    ++ (lit "', got "
                        ++ (if eq_type got_type LuaType.tnil
                            then lit "no value"
                            else lua.typename got_type)))))
        ok field

  unfoldable pub checkismember : ℕ → List Bytes → Value → Outcome (Unit {0})
  checkismember index fields key = elim (tolstring key) [
    | none ↦ argerror index (lit "invalid " ++ (lua.typename (type_of key) ++ lit " field name"))
    | some k ↦
        if is_member k fields
        then ok tt
        else argerror index (lit "invalid field name '" ++ (until_zero k ++ lit "'"))
  ]

  unfoldable pub check_keys : ℕ → List Bytes → List (Value × Value) → Outcome (Unit {0})
  unfolding checkismember
  check_keys index fields [] = ok tt
  check_keys index fields ((key, _) ∷ rest) = do
    checkismember index fields key
    check_keys index fields rest

  unfoldable pub checkfieldnames : Value → ℕ → List Bytes → Outcome (Unit {0})
  unfolding check_keys entries
  checkfieldnames v index fields = check_keys index fields (table_entries v)

  unfoldable pub checkintegerfield : Value → ℕ → Bytes → Outcome ℤ
  unfolding checkfieldtype
  checkintegerfield v index k = do
    field ← checkfieldtype v index k LuaType.tnumber (lit "integer")
    ok (tointeger field)

  unfoldable pub checkintfield : Value → ℕ → Bytes → Outcome ℤ
  unfolding checkintegerfield
  checkintfield v index k = do n ← checkintegerfield v index k; ok (cast_int n)

  -- checklstringfield; the length is that of the bytes
  unfoldable pub checklstringfield : Value → ℕ → Bytes → Outcome Bytes
  unfolding checkfieldtype
  checklstringfield v index k = do
    field ← checkfieldtype v index k LuaType.tstring (lua.typename LuaType.tstring)
    elim (tolstring field) [ none ↦ ok [] | some s ↦ ok s ]

  unfoldable pub optintegerfield : Value → ℕ → Bytes → ℤ → Outcome ℤ
  unfolding checkintegerfield
  optintegerfield v index k def =
      if eq_type (type_of (get_field k v)) LuaType.tnil then ok def else checkintegerfield v index k

  unfoldable pub optintfield : Value → ℕ → Bytes → ℤ → Outcome ℤ
  unfolding optintegerfield
  optintfield v index k def = do n ← optintegerfield v index k def; ok (cast_int n)

  unfoldable pub optstringfield : Value → ℕ → Bytes → Option Bytes → Outcome (Option Bytes)
  unfolding checklstringfield
  optstringfield v index k def =
      if eq_type (type_of (get_field k v)) LuaType.tnil
      then ok def
      else do s ← checklstringfield v index k; ok (some s)
