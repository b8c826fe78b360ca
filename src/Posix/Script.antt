-- ===== src/Posix/Script.antt =====
-- lib/posix: Lua code that runs in a process. It returns, it raises an error, or it does not come
-- back, since the process has ended or runs another program.
use luaposix.Base.{Bool, Bytes, List, eq_bytes, eq_ℤ, false, true, ◌==◌}
use luaposix.Lua.{
  Binding, LuaError, Machine, Outcome, Value, boolean, err, function, int, lightuserdata, nil,
  number, ok, run_error, string, thread, userdata,
}

pub data Ending {ℓ} (A : Type ℓ) : Type ℓ where
  returned : A → Ending A
  thrown : LuaError → Ending A
  gone : Ending A

abbrev pub Script : Type 0 → Type 0 → Type 0
Script W A = Machine W → Ending A × Machine W

module _ {W A : Type 0} where
  unfoldable pub give : A → Script W A
  give a w = (returned a, w)

  -- the end of the process
  unfoldable pub vanish : Script W A
  vanish w = (gone, w)

  -- the function `error`
  unfoldable pub lua_error : Bytes → Script W A
  lua_error msg w = (thrown (run_error msg), w)

abbrev pub ending_of {ℓ} : {A : Type ℓ} → Outcome A → Ending A
ending_of (ok a) = returned a
ending_of (err e) = thrown e

-- a call of a function of the C modules
unfoldable pub call_binding : {W : Type 0} → Binding W → List Value → Script W (List Value)
call_binding b args w = (ending_of (b args w).0, (b args w).1)

module _ {W A B : Type 0} where
  abbrev pub onward : Ending A → (A → Script W B) → Script W B
  onward (returned a) f w = f a w
  onward (thrown e) f w = (thrown e, w)
  onward gone f w = (gone, w)

  infixl 10 ◌>>=◌ ◌>>◌
  unfoldable pub ◌>>=◌ : Script W A → (A → Script W B) → Script W B
  ◌>>=◌ m f w = onward (m w).0 f (m w).1

  abbrev pub ◌>>◌ : Script W A → Script W B → Script W B
  m >> k = m >>= λ _. k

-- `==` on values; a table is the same as no other value
abbrev pub raw_equal : Value → Value → Bool
raw_equal nil nil = true
raw_equal (boolean true) (boolean b) = b
raw_equal (boolean false) (boolean true) = false
raw_equal (boolean false) (boolean false) = true
raw_equal (number (int m)) (number (int n)) = eq_ℤ m n
raw_equal (string s) (string t) = eq_bytes s t
raw_equal (function f) (function g) = f == g
raw_equal (userdata p) (userdata q) = p == q
raw_equal (lightuserdata p) (lightuserdata q) = p == q
raw_equal (thread p) (thread q) = p == q
raw_equal _ _ = false
