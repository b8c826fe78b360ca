-- ===== src/Unistd/Getopt.antt =====
-- ext/posix/unistd.c: Pgetopt and the iterator that it returns. A list has fewer than 2^31 entries here;
-- a userdata of the right size is always given.
pub mod Iterator
pub mod Laws
use luaposix.Base.{Bytes, List, Option, [], none, some, suc, zero, ℕ, ℤ, ◌∷◌}
use luaposix.Helpers.Args.{tolstring}
use luaposix.Lua.{
  Call, Host, LuaType, Outcome, Value, err, get_index, ok, top_error, tstring, type_of,
}
use luaposix.Lua.Checks.{◌>>=◌, ◌>>◌}

-- the upvalues 1 to 3 of the closure; those after them keep the strings alive
pub record Closure : Type 0 where
  pub argc : ℕ
  pub option_string : Bytes
  -- none is NULL
  pub argv : Option (List Bytes)

pub record GetoptCalls (W : Type 0) : Type 0 where
  -- opterr and optind are written
  pub set_opterr : ℤ → Call W (Unit {0})
  pub set_optind : ℤ → Call W (Unit {0})
  -- argc, argv and option_string; the result, optarg, optind, and argv, which getopt may permute
  pub getopt : ℕ → List Bytes → Bytes → Call W (ℤ × Option Bytes × ℤ × List Bytes)
  -- lua_pushcclosure: the function
  pub push_closure : Closure → Call W ℕ

module _ ⦃lua : Host⦄ where
  -- luaL_checkstring (L, -1)
  abbrev pub checkstring_top : Value → Outcome Bytes
  checkstring_top v = elim (tolstring v) [
    | none ↦ err (top_error (lua.tag_error LuaType.tstring (type_of v)))
    | some s ↦ ok s
  ]

  -- argv, from the index `i` on
  unfoldable pub read_argv : ℕ → ℕ → Value → Outcome (List Bytes)
  read_argv zero i t = ok []
  read_argv (suc n) i t = do
    s ← checkstring_top (get_index i t)
    ss ← read_argv n (suc i) t
    ok (s ∷ ss)
