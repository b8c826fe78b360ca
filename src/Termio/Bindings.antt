-- ===== src/Termio/Bindings.antt =====
-- ext/posix/termio.c: the bindings.
use luaposix.Base.{[], eq_ℤ, if◌then◌else◌, minus_one, none, ℤ, ◌∷◌}
use luaposix.Helpers.Args.{arg, checkint, checknargs, lua_l_checktype}
use luaposix.Helpers.Results.{pusherror, pushresult}
use luaposix.Lua.{Binding, Call, Host, LuaType, call, lift, pure, ◌>>=◌, ◌>>◌}
use luaposix.Termio.Structs.{
  Speeds, Termios, Winsize, attributes_table, pushwinsize, read_attributes, towinsize,
}

pub record TermioCalls (W : Type 0) : Type 0 where
  pub tcdrain : ℤ → Call W ℤ
  pub tcflow : ℤ → ℤ → Call W ℤ
  pub tcflush : ℤ → ℤ → Call W ℤ
  pub tcgetattr : ℤ → Call W (ℤ × Termios)
  pub tcsendbreak : ℤ → ℤ → Call W ℤ
  pub tcsetattr : ℤ → ℤ → Termios → Call W ℤ
  -- ioctl with TIOCGWINSZ and with TIOCSWINSZ
  pub get_winsize : ℤ → Call W (ℤ × Winsize)
  pub set_winsize : ℤ → Winsize → Call W ℤ
  -- what the stack holds where Ptcsetattr has its struct
  pub stack_termios : Termios
  pub speeds : Speeds

module _ ⦃lua : Host⦄ {W : Type 0} (os : TermioCalls W) where
  unfoldable pub p_tcdrain : Binding W
  unfolding ◌>>=◌ checkint checknargs pushresult
  p_tcdrain args = do
    fd ← lift (checkint args 1)
    lift (checknargs args 1)
    r ← call (os.tcdrain fd)
    pushresult r none

  unfoldable pub p_tcflow : Binding W
  unfolding ◌>>=◌ checkint checknargs pushresult
  p_tcflow args = do
    fd ← lift (checkint args 1)
    action ← lift (checkint args 2)
    lift (checknargs args 2)
    r ← call (os.tcflow fd action)
    pushresult r none

  unfoldable pub p_tcflush : Binding W
  unfolding ◌>>=◌ checkint checknargs pushresult
  p_tcflush args = do
    fd ← lift (checkint args 1)
    qs ← lift (checkint args 2)
    lift (checknargs args 2)
    r ← call (os.tcflush fd qs)
    pushresult r none

  unfoldable pub p_tcgetattr : Binding W
  unfolding ◌>>=◌ checkint checknargs pusherror attributes_table
  p_tcgetattr args = do
    fd ← lift (checkint args 1)
    lift (checknargs args 1)
    (r, t) ← call (os.tcgetattr fd)
    if eq_ℤ r minus_one then pusherror none else pure (attributes_table os.speeds t ∷ [])

  unfoldable pub p_tcsendbreak : Binding W
  unfolding ◌>>=◌ checkint checknargs pushresult
  p_tcsendbreak args = do
    fd ← lift (checkint args 1)
    duration ← lift (checkint args 2)
    lift (checknargs args 2)
    r ← call (os.tcsendbreak fd duration)
    pushresult r none

  unfoldable pub p_tcsetattr : Binding W
  unfolding ◌>>=◌ checkint lua_l_checktype checknargs pushresult
  p_tcsetattr args = do
    fd ← lift (checkint args 1)
    act ← lift (checkint args 2)
    lift (lua_l_checktype args 3 LuaType.ttable)
    lift (checknargs args 3)
    t ← lift (read_attributes os.speeds os.stack_termios (arg args 3))
    r ← call (os.tcsetattr fd act t)
    pushresult r none

  unfoldable pub p_tcgetwinsize : Binding W
  unfolding ◌>>=◌ checkint checknargs pusherror pushwinsize
  p_tcgetwinsize args = do
    fd ← lift (checkint args 1)
    lift (checknargs args 1)
    (r, ws) ← call (os.get_winsize fd)
    if eq_ℤ r minus_one then pusherror none else pure (pushwinsize ws ∷ [])

  unfoldable pub p_tcsetwinsize : Binding W
  unfolding ◌>>=◌ checkint towinsize checknargs pushresult
  p_tcsetwinsize args = do
    fd ← lift (checkint args 1)
    ws ← lift (towinsize args 2)
    lift (checknargs args 2)
    r ← call (os.set_winsize fd ws)
    pushresult r none
