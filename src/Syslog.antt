-- ===== src/Syslog.antt =====
-- ext/posix/syslog.c. A string of Lua is an object with a number; the registry keeps one at the key
-- &Popenlog, and openlog gets the bytes of one and keeps the pointer.
use luaposix.Base.{Bytes, Option, [], lit, pos, some, until_zero, ℕ, ℤ}
use luaposix.Helpers.Args.{checkint, checknargs, checkstring, optint}
use luaposix.Helpers.Results.{pushintegerresult, pushresult}
use luaposix.Lua.{Binding, Call, Exec, Host, call, lift, ok, pure, ◌>>=◌, ◌>>◌}

pub record SyslogCalls (W : Type 0) : Type 0 where
  -- lua_pushstring: the object
  pub push_object : Bytes → Call W ℕ
  pub openlog : ℕ → ℤ → ℤ → Call W (Unit {0})
  pub syslog : ℤ → Bytes → Call W (Unit {0})
  pub closelog : Call W (Unit {0})
  pub setlogmask : ℤ → Call W ℤ
  pub log_user : ℤ
  -- LOG_MASK
  pub log_mask : ℤ → ℤ

pub record Logging (W : Type 0) : Type 0 where
  -- the object in the registry
  pub slot : Option ℕ
  pub system : W

abbrev pub on_logging : {W A : Type 0} → Call W A → Call (Logging W) A
on_logging c m =
    let (a, m') = c (record { errno = m.errno; kernel = m.kernel.system }) in
    (a, record { errno = m'.errno; kernel = record (m.kernel) { system = m'.kernel } })

unfoldable pub set_slot : {W : Type 0} → ℕ → Exec (Logging W) (Unit {0})
set_slot object w = (ok tt, record w { kernel = record (w.kernel) { slot = some object } })

module _ ⦃lua : Host⦄ {W : Type 0} (os : SyslogCalls W) where
  unfoldable pub p_openlog : Binding (Logging W)
  unfolding ◌>>=◌ checkstring optint checknargs set_slot
  p_openlog args = do
    ident ← lift (checkstring args 1)
    option ← lift (optint args 2 (pos 0))
    facility ← lift (optint args 3 os.log_user)
    lift (checknargs args 3)
    saved ← call (on_logging (os.push_object (until_zero ident)))
    set_slot saved
    copy ← call (on_logging (os.push_object (until_zero ident)))
    call (on_logging (os.openlog copy option facility))
    pure []

  unfoldable pub p_syslog : Binding W
  unfolding ◌>>=◌ checkint checkstring checknargs
  p_syslog args = do
    priority ← lift (checkint args 1)
    msg ← lift (checkstring args 2)
    lift (checknargs args 2)
    call (os.syslog priority (until_zero msg))
    pure []

  unfoldable pub p_closelog : Binding W
  unfolding ◌>>=◌ checknargs
  p_closelog args = do lift (checknargs args 0); call os.closelog; pure []

  unfoldable pub p_setlogmask : Binding W
  unfolding ◌>>=◌ checknargs optint pushresult
  p_setlogmask args = do
    lift (checknargs args 1)
    maskpri ← lift (optint args 1 (pos 0))
    r ← call (os.setlogmask maskpri)
    pushresult r (some (lit "setlogmask"))

  unfoldable pub p_log_mask : Binding W
  unfolding ◌>>=◌ checknargs checkint pushintegerresult
  p_log_mask args = do
    lift (checknargs args 1)
    priority ← lift (checkint args 1)
    pushintegerresult (os.log_mask priority)
