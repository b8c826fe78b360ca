-- ===== src/Helpers/Args.antt =====
-- ext/include/_helpers.c: the checks on one argument. Arguments count from 1, as in Lua; an absent
-- one has the tag LUA_TNONE.
use luaposix.Base.{
  Bool, Bytes, Option, cast_int, false, get_elem?, if◌then◌else◌, leb, length, lit, none, pos, some,
  true, ℕ, ℤ, ◌++◌, ◌+◌, ◌-◌, ◌==◌, ◌||◌,
}
use luaposix.Lua.{
  Args, Host, LuaType, Outcome, Value, arg_error, eq_type, err, float, int, nil, number, ok, string,
  to_boolean, type_of,
}
use luaposix.Lua.Checks.{◌>>=◌, ◌>>◌}

-- lua_type (L, n)
abbrev pub arg_type : Args → ℕ → LuaType
arg_type args n = elim (get_elem? args (n - 1)) [ none ↦ LuaType.tnone | some v ↦ type_of v ]

-- the value at an index, nil where there is none
abbrev pub arg : Args → ℕ → Value
arg args n = elim (get_elem? args (n - 1)) [ none ↦ nil | some v ↦ v ]

-- lua_isnoneornil
abbrev pub is_none_or_nil : Args → ℕ → Bool
is_none_or_nil args n =
    eq_type (arg_type args n) LuaType.tnone || eq_type (arg_type args n) LuaType.tnil

-- luaL_argerror
abbrev pub argerror {ℓ} : {A : Type ℓ} → ℕ → Bytes → Outcome A
argerror narg msg = err (arg_error narg msg)

-- luaL_argcheck
abbrev pub argcheck : Bool → ℕ → Bytes → Outcome (Unit {0})
argcheck true narg msg = ok tt
argcheck false narg msg = argerror narg msg

module _ ⦃lua : Host⦄ where
  -- lua_tointegerx: none where the conversion fails
  abbrev pub tointegerx : Value → Option ℤ
  tointegerx (number (int n)) = some n
  tointegerx (number (float x)) = lua.float_to_integer x
  tointegerx (string s) = lua.string_to_integer s
  tointegerx _ = none

  -- lua_tointeger
  abbrev pub tointeger : Value → ℤ
  tointeger v = elim (tointegerx v) [ none ↦ pos 0 | some n ↦ n ]

  -- lua_tolstring: none is NULL
  abbrev pub tolstring : Value → Option Bytes
  tolstring (string s) = some s
  tolstring (number n) = some (lua.number_to_string n)
  tolstring _ = none

  unfoldable pub argtypeerror {ℓ} : {A : Type ℓ} → Args → ℕ → Bytes → Outcome A
  argtypeerror args narg expected =
      argerror narg (expected ++ (lit " expected, got " ++ lua.typename (arg_type args narg)))

  unfoldable pub checktype : Args → ℕ → LuaType → Bytes → Outcome (Unit {0})
  unfolding argtypeerror
  checktype args narg t expected =
      if eq_type (arg_type args narg) t then ok tt else argtypeerror args narg expected

  unfoldable pub expectinteger : Args → ℕ → Bytes → Outcome ℤ
  unfolding argtypeerror
  expectinteger args narg expected = elim (tointegerx (arg args narg)) [
    | none ↦ argtypeerror args narg expected
    | some d ↦ ok d
  ]

  unfoldable pub checkinteger : Args → ℕ → Outcome ℤ
  unfolding expectinteger
  checkinteger args n = expectinteger args n (lit "integer")

  unfoldable pub checkint : Args → ℕ → Outcome ℤ
  unfolding checkinteger
  checkint args n = do d ← checkinteger args n; ok (cast_int d)

  unfoldable pub optboolean : Args → ℕ → Bool → Outcome Bool
  unfolding checktype
  optboolean args narg def = if is_none_or_nil args narg then ok def else do
    checktype args narg LuaType.tboolean (lit "boolean or nil")
    ok (to_boolean (arg args narg))

  unfoldable pub expectoptinteger : Args → ℕ → ℤ → Bytes → Outcome ℤ
  unfolding expectinteger
  expectoptinteger args narg def expected =
      if is_none_or_nil args narg then ok def else expectinteger args narg expected

  unfoldable pub optinteger : Args → ℕ → ℤ → Outcome ℤ
  unfolding expectoptinteger
  optinteger args n d = expectoptinteger args n d (lit "integer or nil")

  unfoldable pub optint : Args → ℕ → ℤ → Outcome ℤ
  unfolding optinteger
  optint args n d = do z ← optinteger args n d; ok (cast_int z)

  -- `none` as the default is NULL
  unfoldable pub optstring : Args → ℕ → Option Bytes → Outcome (Option Bytes)
  unfolding argtypeerror
  optstring args narg def =
      if is_none_or_nil args narg then ok def else elim (tolstring (arg args narg)) [
        | none ↦ argtypeerror args narg (lit "nil or string")
        | some s ↦ ok (some s)
      ]

  unfoldable pub checknargs : Args → ℕ → Outcome (Unit {0})
  checknargs args maxargs = argcheck (leb (length args) maxargs) (maxargs + 1) (
      lit "no more than "
      ++ (lua.format_int (pos maxargs)
          ++ (lit " argument"
              ++ ((if maxargs == 1 then lit "" else lit "s")
                  ++ (lit " expected, got " ++ lua.format_int (pos (length args)))))))

  -- luaL_checktype and luaL_checklstring of lauxlib.h
  unfoldable pub lua_l_checktype : Args → ℕ → LuaType → Outcome (Unit {0})
  lua_l_checktype args narg t =
      argcheck (eq_type (arg_type args narg) t) narg (lua.tag_error t (arg_type args narg))

  unfoldable pub checkstring : Args → ℕ → Outcome Bytes
  checkstring args narg = elim (tolstring (arg args narg)) [
    | none ↦ argerror narg (lua.tag_error LuaType.tstring (arg_type args narg))
    | some s ↦ ok s
  ]

  unfoldable pub badoption {ℓ} : {A : Type ℓ} → ℕ → Bytes → ℕ → Outcome A
  badoption i what option =
      argerror i
        (lit "invalid " ++ (what ++ (lit " option '" ++ (lua.format_char option ++ lit "'"))))
