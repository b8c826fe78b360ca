-- ===== src/Posix/Modes/Functions.antt =====
-- lib/posix/compat.lua: chmod, creat, mkdir, mkfifo, open and umask. A mode is a text or nil, which the
-- wrappers of the module typecheck see to.
use luaposix.Base.{
  Bytes, List, Option, [], bit_and, cast_size, eq_bytes, if◌then◌else◌, lit, negsuc, none, pos,
  some, ℕ, ℤ, ◌++◌, ◌∷◌,
}
use luaposix.Fcntl.Bindings.{FcntlCalls, p_open}
use luaposix.Helpers.Args.{arg}
use luaposix.Lua.{Host, Value, get_field, int, integer, nil, number, string}
use luaposix.Posix.Modes.{bnot, has_bit, mode_munch, pushmode, rwxall}
use luaposix.Posix.Script.{Script, call_binding, give, lua_error, ◌>>=◌, ◌>>◌}
use luaposix.Sys.Stat.{StatCalls, p_chmod, p_mkdir, p_mkfifo, p_stat, p_umask}
use luaposix.Unistd.Access.{bits}

-- argerror with the reason that mode_munch gives
abbrev pub mode_error : {W A : Type 0} → Bytes → Option Bytes → Script W A
mode_error what none = lua_error (what ++ lit " (string expected, got no value)")
mode_error what (some text) = lua_error (what ++ lit " (bad mode)")

abbrev pub munch : ℕ → Option Bytes → Option ℕ
munch mode none = none
munch mode (some text) = mode_munch mode text

-- the bits of an integer
abbrev pub bits_of : Value → ℕ
bits_of (number (int n)) = cast_size n
bits_of v = 0

module _ ⦃lua : Host⦄ {W : Type 0} (os : StatCalls W) where
  abbrev pub chmod_to : Bytes → Option Bytes → Option ℕ → Script W (List Value)
  chmod_to path text none = mode_error (lit "bad argument #2 to 'chmod'") text
  chmod_to path text (some bits) =
      call_binding (p_chmod os) (string path ∷ integer (pos (bit_and bits rwxall)) ∷ [])

  -- `(stat(path) or {}).st_mode or 0`
  abbrev pub mode_before : Value → ℕ
  mode_before nil = 0
  mode_before v = bits_of (get_field (lit "st_mode") v)

  unfoldable pub legacy_chmod : Bytes → Option Bytes → Script W (List Value)
  legacy_chmod path text = do
    info ← call_binding (p_stat os) (string path ∷ [])
    chmod_to path text (munch (mode_before (arg info 1)) text)

  unfoldable pub legacy_mkdir : Bytes → Script W (List Value)
  legacy_mkdir path = call_binding (p_mkdir os) (string path ∷ integer (pos rwxall) ∷ [])

  unfoldable pub legacy_mkfifo : Bytes → Script W (List Value)
  legacy_mkfifo path = call_binding (p_mkfifo os) (string path ∷ integer (pos rwxall) ∷ [])

  -- `~mode`, of a mode below 2 ^ 63
  abbrev pub complement : ℕ → Value
  complement mode = integer (negsuc mode)

  abbrev pub umask_to : Bytes → Option ℕ → Script W (List Value)
  umask_to text none = mode_error (lit "bad argument #1 to 'umask'") (some text)
  umask_to text (some bits) = do
    call_binding (p_umask os) (complement (bit_and bits rwxall) ∷ [])
    give (string (pushmode (bit_and bits rwxall)) ∷ [])

  -- the mask is read by setting it to 0 and back
  unfoldable pub legacy_umask : Bytes → Script W (List Value)
  legacy_umask text = do
    old ← call_binding (p_umask os) (integer (pos 0) ∷ [])
    call_binding (p_umask os) (arg old 1 ∷ [])
    let mode = bit_and (bnot (bits_of (arg old 1))) rwxall
    if eq_bytes text []
        then give (string (pushmode mode) ∷ [])
        else umask_to text (mode_munch mode text)

module _ ⦃lua : Host⦄ {W : Type 0} (os : FcntlCalls W) where
  abbrev pub open_with : Bytes → Bytes → Value → Option Bytes → Option ℕ → Script W (List Value)
  open_with what path oflags text none = mode_error what text
  open_with what path oflags text (some bits) =
      call_binding (p_open os) (string path ∷ oflags ∷ integer (pos (bit_and bits rwxall)) ∷ [])

  -- FCREAT is the flags O_CREAT, O_WRONLY and O_TRUNC together
  unfoldable pub legacy_creat : ℤ → Bytes → Option Bytes → Script W (List Value)
  legacy_creat fcreat path text =
      open_with (lit "bad argument #2 to 'creat'") path (integer fcreat) text (munch 0 text)

  -- the mode is read only where the flags have O_CREAT
  unfoldable pub legacy_open : ℕ → Bytes → ℤ → Option Bytes → Script W (List Value)
  legacy_open o_creat path oflags text =
      if has_bit (cast_size oflags) o_creat
      then open_with (lit "bad argument #3 to 'open'") path (integer oflags) text (munch 0 text)
      else call_binding (p_open os) (string path ∷ integer oflags ∷ nil ∷ [])
