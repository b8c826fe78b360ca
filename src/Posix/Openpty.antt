-- ===== src/Posix/Openpty.antt =====
-- lib/posix/init.lua: openpty, on the functions of posix.stdlib, posix.fcntl and posix.unistd.
pub mod Answers
pub mod Descriptors
pub mod Outcome
use luaposix.Base.{List, [], if◌then◌else◌, ℤ, ◌∷◌}
use luaposix.Fcntl.Bindings.{FcntlCalls, p_open}
use luaposix.Helpers.Args.{arg}
use luaposix.Lua.{Host, Value, integer, nil, to_boolean}
use luaposix.Modules.Names.{named}
use luaposix.Posix.Script.{Script, call_binding, give, ◌>>=◌, ◌>>◌}
use luaposix.Stdlib.Bindings.{StdlibCalls, p_grantpt, p_openpt, p_ptsname, p_unlockpt}
use luaposix.Unistd.Calls.{UnistdCalls}
use luaposix.Unistd.Descriptors.{p_close}

pub record PtyCalls (W : Type 0) : Type 0 where
  pub stdlib : StdlibCalls W
  pub fcntl : FcntlCalls W
  pub unistd : UnistdCalls W
  -- the flags O_RDWR and O_NOCTTY together
  pub rdwr_noctty : ℤ

module _ ⦃lua : Host⦄ {W : Type 0} (os : PtyCalls W) where
  -- `return nil, errmsg, errnum`
  abbrev pub failure_of : List Value → Script W (List Value)
  failure_of results = give (nil ∷ arg results 2 ∷ arg results 3 ∷ [])

  unfoldable pub close_master : Value → List Value → Script W (List Value)
  close_master master results = do
    call_binding (p_close os.unistd) (master ∷ [])
    failure_of results

  unfoldable pub open_slave : Value → Value → Script W (List Value)
  open_slave master slave_name = do
    opened ← call_binding (p_open os.fcntl) (slave_name ∷ integer os.rdwr_noctty ∷ [])
    if to_boolean (arg opened 1)
        then give (master ∷ arg opened 1 ∷ slave_name ∷ [])
        else close_master master opened

  unfoldable pub name_slave : Value → Script W (List Value)
  name_slave master = do
    named ← call_binding (p_ptsname os.stdlib) (master ∷ [])
    if to_boolean (arg named 1) then open_slave master (arg named 1) else close_master master named

  unfoldable pub unlock_slave : Value → Script W (List Value)
  unlock_slave master = do
    unlocked ← call_binding (p_unlockpt os.stdlib) (master ∷ [])
    if to_boolean (arg unlocked 1) then name_slave master else close_master master unlocked

  unfoldable pub grant_slave : Value → Script W (List Value)
  grant_slave master = do
    granted ← call_binding (p_grantpt os.stdlib) (master ∷ [])
    if to_boolean (arg granted 1) then unlock_slave master else close_master master granted

  unfoldable pub p_openpty : Script W (List Value)
  p_openpty = do
    opened ← call_binding (p_openpt os.stdlib) (integer os.rdwr_noctty ∷ [])
    if to_boolean (arg opened 1) then grant_slave (arg opened 1) else failure_of opened
