-- ===== src/Lua/Effects.antt =====
-- What the bindings rely on and do not implement, and their effects: a Lua error leaves the binding
-- by a long jump, and what was done to the process before it stays done.
use luaposix.Base.{Bytes, List, Option, ℕ, ℤ}
use luaposix.Lua.Values.{LuaType, Number, Value}

-- Lua's conversions and messages, and the C library's strerror.
pub record Host : Type 0 where
  pub float_to_integer : ℕ → Option ℤ
  pub string_to_integer : Bytes → Option ℤ
  pub number_to_string : Number → Bytes
  pub typename : LuaType → Bytes
  -- the message of luaL_checktype and luaL_checklstring: expected, got
  pub tag_error : LuaType → LuaType → Bytes
  -- the message of luaL_checkoption
  pub invalid_option : Bytes → Bytes
  -- `%d` and `%c` of lua_pushfstring
  pub format_int : ℤ → Bytes
  pub format_char : ℕ → Bytes
  pub strerror : ℤ → Bytes
  -- lua_objlen of a table: a border
  pub objlen : Value → ℕ
  -- the message of Lua where a value without an __index is indexed
  pub index_error : LuaType → Bytes

-- luaL_argerror (L, narg, extramsg), the same of the index -1, and luaL_error (L, msg).
pub data LuaError : Type 0 where
  arg_error : ℕ → Bytes → LuaError
  top_error : Bytes → LuaError
  run_error : Bytes → LuaError

pub data Outcome {ℓ} (A : Type ℓ) : Type ℓ where
  ok : A → Outcome A
  err : LuaError → Outcome A

-- The process: errno, and whatever else the calls of the system read and write.
pub record Machine (W : Type 0) : Type 0 where
  pub errno : ℤ
  pub kernel : W

-- A call of the C library or the system.
abbrev pub Call : Type 0 → Type 0 → Type 0
Call W A = Machine W → A × Machine W

abbrev pub Exec : Type 0 → Type 0 → Type 0
Exec W A = Machine W → Outcome A × Machine W

-- The arguments of a call from Lua, first to last, and what a binding returns to Lua.
abbrev pub Args : Type 0
Args = List Value

abbrev pub Binding : Type 0 → Type 0
Binding W = Args → Exec W (List Value)

module _ {W A : Type 0} where
  unfoldable pub pure : A → Exec W A
  pure a w = (ok a, w)

  unfoldable pub raise : LuaError → Exec W A
  raise e w = (err e, w)

  -- a check that touches nothing but the arguments
  unfoldable pub lift : Outcome A → Exec W A
  lift r w = (r, w)

  unfoldable pub call : Call W A → Exec W A
  call c w = let (a, w') = c w in (ok a, w')

module _ {W : Type 0} where
  unfoldable pub read_errno : Exec W ℤ
  read_errno w = (ok w.errno, w)

  unfoldable pub write_errno : ℤ → Exec W (Unit {0})
  write_errno n w = (ok tt, record w { errno = n })

module _ {W A B : Type 0} where
  abbrev pub onward : Outcome A → (A → Exec W B) → Exec W B
  onward (ok a) f w = f a w
  onward (err e) f w = (err e, w)

  infixl 10 ◌>>=◌ ◌>>◌
  unfoldable pub ◌>>=◌ : Exec W A → (A → Exec W B) → Exec W B
  unfolding pure raise lift call read_errno write_errno
  ◌>>=◌ m f w = let (r, w') = m w in onward r f w'

  abbrev pub ◌>>◌ : Exec W A → Exec W B → Exec W B
  m >> k = m >>= λ _. k
