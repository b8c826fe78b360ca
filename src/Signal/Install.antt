-- ===== src/Signal/Install.antt =====
-- ext/posix/signal.c: Psignal, with the table of Lua handlers in the registry, and kill, killpg and
-- raise. The dispositions of the process are the system's, behind `sigaction`.
use luaposix.Base.{
  Bool, Bytes, List, [], cast_int, eq_bytes, eq_ℤ, false, if◌then◌else◌, lit, minus_one, none, pos,
  some, until_zero, ℕ, ℤ, ◌∷◌,
}
use luaposix.Helpers.Args.{
  arg, arg_type, argerror, argtypeerror, checkint, checkinteger, checknargs, optint,
}
use luaposix.Helpers.Results.{pushintegerresult, pushresult}
use luaposix.Lua.{
  Args, Binding, Call, Exec, Host, LuaType, Outcome, Value, call, eq_type, float, function, int,
  lift, nil, number, ok, pure, string, wrapped, ◌>>=◌, ◌>>◌,
}

-- a C handler: SIG_DFL, SIG_IGN, sig_postpone, or another function of the process
pub data Handler : Type 0 where
  sig_dfl sig_ign postpone : Handler
  foreign : ℕ → Handler

-- the process with the table that the registry holds at &signalL
pub record Registry (W : Type 0) : Type 0 where
  pub handlers : List (Value × Value)
  pub system : W

abbrev pub on_system : {W A : Type 0} → Call W A → Call (Registry W) A
on_system c m =
    let (a, m') = c (record { errno = m.errno; kernel = m.kernel.system }) in
    (a, record { errno = m'.errno; kernel = record (m.kernel) { system = m'.kernel } })

-- equality of the keys that Psignal uses: integers and strings
abbrev pub eq_key : Value → Value → Bool
eq_key (number (int a)) (number (int b)) = eq_ℤ a b
eq_key (string a) (string b) = eq_bytes a b
eq_key _ _ = false

-- lua_rawget and lua_gettable on the table of handlers
unfoldable pub find_handler : Value → List (Value × Value) → Value
find_handler k [] = nil
find_handler k ((j, v) ∷ handlers) = if eq_key k j then v else find_handler k handlers

-- lua_rawset
unfoldable pub set_handler : Value → Value → List (Value × Value) → List (Value × Value)
set_handler k v [] = (k, v) ∷ []
set_handler k v ((j, w) ∷ handlers) =
    if eq_key k j then (j, v) ∷ handlers else (j, w) ∷ set_handler k v handlers

pub record SignalCalls (W : Type 0) : Type 0 where
  -- the new handler and the flags; all signals are in sa_mask
  pub sigaction : ℤ → Handler → ℤ → Call W (ℤ × Handler)
  pub kill : ℤ → ℤ → Call W ℤ
  pub killpg : ℤ → ℤ → Call W ℤ
  pub raise_signal : ℤ → Call W ℤ
  pub sigterm : ℤ

-- sig_handler_wrap: the C handler in its upvalues is called with the signal
unfoldable pub sig_handler_wrap :
    {W : Type 0} → (ℕ → ℤ → Call W (Unit {0})) → ℤ → ℕ → Exec W (List Value)
unfolding ◌>>=◌
sig_handler_wrap enter sig handler = do call (enter handler sig); pure []

module _ ⦃lua : Host⦄ where
  -- Lua turns a float key of integral value into an integer
  abbrev pub table_key : Value → Value
  table_key (number (float x)) = elim (lua.float_to_integer x) [
    | none ↦ number (float x)
    | some n ↦ number (int n)
  ]
  table_key v = v

  -- luaL_checkoption over Ssigmacros, by strcmp, and Fsigmacros
  abbrev pub sigmacro : Bytes → Outcome Handler
  sigmacro name =
      if eq_bytes (until_zero name) (lit "SIG_DFL")
      then ok sig_dfl
      else if eq_bytes (until_zero name) (lit "SIG_IGN")
      then ok sig_ign
      else argerror 2 (lua.invalid_option name)

  -- the switch on the type of the second argument
  unfoldable pub choose_handler : Args → Outcome Handler
  unfolding argtypeerror
  choose_handler args =
      if eq_type (arg_type args 2) LuaType.tnone
      then argtypeerror args 2 (lit "function, nil or string")
      else elim (arg args 2) [
        | nil ↦ sigmacro (lit "SIG_DFL")
        | string name ↦ sigmacro name
        | function f ↦ ok postpone
        -- upvalue 1 is the signal, of which lua_touserdata makes NULL, which is SIG_DFL
        | wrapped sig h ↦ ok sig_dfl
        | _ ↦ argtypeerror args 2 (lit "function, nil or string")
      ]

  module _ {W : Type 0} (os : SignalCalls W) where
    unfoldable pub store_handler : Handler → Args → Exec (Registry W) (Unit {0})
    unfolding set_handler
    store_handler postpone args w = (
      ok tt,
      record w {
        kernel = record (w.kernel) {
          handlers = set_handler (table_key (arg args 1)) (arg args 2) w.kernel.handlers;
        };
      },
    )
    store_handler _ args w = (ok tt, w)

    unfoldable pub push_old : Handler → ℤ → Args → Exec (Registry W) (List Value)
    unfolding find_handler
    push_old postpone sig args w =
        (ok (find_handler (table_key (arg args 1)) w.kernel.handlers ∷ []), w)
    push_old sig_dfl sig args w = (ok (string (lit "SIG_DFL") ∷ []), w)
    push_old sig_ign sig args w = (ok (string (lit "SIG_IGN") ∷ []), w)
    push_old (foreign h) sig args w = (ok (wrapped sig h ∷ []), w)

    unfoldable pub p_signal : Binding (Registry W)
    unfolding ◌>>=◌ checkint checknargs choose_handler optint store_handler push_old
    p_signal args = do
      sig ← lift (checkint args 1)
      lift (checknargs args 3)
      handler ← lift (choose_handler args)
      flags ← lift (optint args 3 (pos 0))
      (ret, old) ← call (on_system (os.sigaction sig handler flags))
      if eq_ℤ ret minus_one then pure [] else do store_handler handler args; push_old old sig args

    unfoldable pub p_kill : Binding W
    unfolding ◌>>=◌ checkinteger optint checknargs pushresult
    p_kill args = do
      pid ← lift (checkinteger args 1)
      sig ← lift (optint args 2 os.sigterm)
      lift (checknargs args 2)
      r ← call (os.kill (cast_int pid) sig)
      pushresult r none

    unfoldable pub p_killpg : Binding W
    unfolding ◌>>=◌ checkinteger optint checknargs pushresult
    p_killpg args = do
      pgrp ← lift (checkinteger args 1)
      sig ← lift (optint args 2 os.sigterm)
      lift (checknargs args 2)
      r ← call (os.killpg (cast_int pgrp) sig)
      pushresult r none

    unfoldable pub p_raise : Binding W
    unfolding ◌>>=◌ checkint checknargs pushintegerresult
    p_raise args = do
      sig ← lift (checkint args 1)
      lift (checknargs args 1)
      r ← call (os.raise_signal sig)
      pushintegerresult r
