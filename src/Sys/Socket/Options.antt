-- ===== src/Sys/Socket/Options.antt =====
-- ext/posix/sys/socket.c: Psetsockopt and Pgetsockopt.
use luaposix.Base.{
  Bytes, Option, [], cast_int, eq_ℤ, if◌then◌else◌, length, lit, take, until_zero, ℕ, ℤ, ◌-◌, ◌||◌,
  ◌∷◌,
}
use luaposix.Helpers.Args.{checkinteger, checknargs, checkstring}
use luaposix.Helpers.Results.{typed_table}
use luaposix.Lua.{Args, Call, Host, Outcome, Value, integer, nil, ok, string}
use luaposix.Lua.Checks.{◌>>=◌, ◌>>◌}

-- what `val` points to
pub data OptionValue : Type 0 where
  linger : ℤ → ℤ → OptionValue
  timeval : ℤ → ℤ → OptionValue
  ifname : Bytes → OptionValue
  mreq6 : Option ℕ → OptionValue
  vint : ℤ → OptionValue

-- which of its variables Pgetsockopt lets the system fill
pub data Slot : Type 0 where
  linger_slot timeval_slot ifname_slot vint_slot : Slot

pub record OptionCalls (W : Type 0) : Type 0 where
  -- fd, level, optname, the value and its length
  pub setsockopt : ℤ → ℤ → ℤ → OptionValue → ℕ → Call W ℤ
  -- the variable and its length; the result, what was filled in, and the length that came back
  pub getsockopt : ℤ → ℤ → ℤ → Slot → ℕ → Call W (ℤ × OptionValue × ℕ)
  pub sol_socket : ℤ
  pub ipproto_ipv6 : ℤ
  pub ipproto_tcp : ℤ
  pub so_linger : ℤ
  pub so_rcvtimeo : ℤ
  pub so_sndtimeo : ℤ
  pub so_bindtodevice : ℤ
  pub ipv6_join_group : ℤ
  pub ipv6_leave_group : ℤ
  pub sizeof_linger : ℕ
  pub sizeof_timeval : ℕ
  pub sizeof_mreq6 : ℕ
  pub sizeof_int : ℕ
  pub ifnamsiz : ℕ
  pub pton6 : Bytes → Option ℕ

-- strncpy of at most n bytes, and the zero behind them
abbrev pub copy_name : ℕ → Bytes → Bytes
copy_name n s = take n (until_zero s)

module _ ⦃lua : Host⦄ {W : Type 0} (os : OptionCalls W) where
  -- `vint = checkinteger (L, 4)` where no case has set val
  unfoldable pub int_value : Args → Outcome (OptionValue × ℕ)
  unfolding checkinteger
  int_value args = do n ← checkinteger args 4; ok (vint (cast_int n), os.sizeof_int)

  unfoldable pub socket_value : ℤ → Args → Outcome (OptionValue × ℕ)
  unfolding checknargs checkinteger checkstring int_value
  socket_value optname args =
      if eq_ℤ optname os.so_linger
      then (do
        checknargs args 5
        onoff ← checkinteger args 4
        seconds ← checkinteger args 5
        ok (linger (cast_int onoff) (cast_int seconds), os.sizeof_linger))
      else if eq_ℤ optname os.so_rcvtimeo || eq_ℤ optname os.so_sndtimeo
      then (do
        checknargs args 5
        sec ← checkinteger args 4
        usec ← checkinteger args 5
        ok (timeval sec usec, os.sizeof_timeval))
      else if eq_ℤ optname os.so_bindtodevice
      then (do
        checknargs args 4
        name ← checkstring args 4
        let copied = copy_name (os.ifnamsiz - 1) name
        ok (ifname copied, length copied))
      else (do checknargs args 4; int_value args)

  unfoldable pub ipv6_value : ℤ → Args → Outcome (OptionValue × ℕ)
  unfolding checknargs checkstring int_value
  ipv6_value optname args =
      if eq_ℤ optname os.ipv6_join_group || eq_ℤ optname os.ipv6_leave_group
      then (do
        checknargs args 4
        group ← checkstring args 4
        ok (mreq6 (os.pton6 group), os.sizeof_mreq6))
      else (do checknargs args 4; int_value args)

  -- the switch on the level; levels that it does not know leave the count of arguments unchecked
  unfoldable pub option_value : ℤ → ℤ → Args → Outcome (OptionValue × ℕ)
  unfolding socket_value ipv6_value checknargs int_value
  option_value level optname args =
      if eq_ℤ level os.sol_socket
      then socket_value optname args
      else if eq_ℤ level os.ipproto_ipv6
      then ipv6_value optname args
      else if eq_ℤ level os.ipproto_tcp
      then (do checknargs args 4; int_value args)
      else int_value args

  -- the switch of Pgetsockopt
  abbrev pub option_slot : ℤ → ℤ → Slot × ℕ
  option_slot level optname =
      if eq_ℤ level os.sol_socket
      then if eq_ℤ optname os.so_linger
        then (linger_slot, os.sizeof_linger)
        else if eq_ℤ optname os.so_rcvtimeo || eq_ℤ optname os.so_sndtimeo
        then (timeval_slot, os.sizeof_timeval)
        else if eq_ℤ optname os.so_bindtodevice
        then (ifname_slot, os.ifnamsiz)
        else (vint_slot, os.sizeof_int)
      else (vint_slot, os.sizeof_int)

  unfoldable pub pushoption : OptionValue → ℕ → Value
  unfolding typed_table
  pushoption (timeval sec usec) len =
      typed_table (lit "PosixTimeval")
        ((lit "tv_sec", integer sec) ∷ (lit "tv_usec", integer usec) ∷ [])
  pushoption (linger onoff seconds) len =
      typed_table (lit "PosixLinger")
        ((lit "l_linger", integer seconds) ∷ (lit "l_onoff", integer onoff) ∷ [])
  pushoption (ifname name) len = string (take len name)
  pushoption (vint n) len = integer n
  pushoption (mreq6 group) len = nil
