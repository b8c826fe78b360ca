-- ===== src/Sys/Socket/OptionKinds.antt =====
-- ext/posix/sys/socket.c: the variables that Psetsockopt fills against those that Pgetsockopt lets the
-- system fill.
use mathlib.Core.Path.{subst}
use luaposix.Base.{
  Bool, Bytes, arith, cast_int, eq_ℤ, false, if◌then◌else◌, length, length-take, refl, true,
  until_zero, ℕ, ℤ, ◌-◌, ◌||◌, ◌≡◌, ◌≤◌,
}
use luaposix.Helpers.Args.{checkinteger, checknargs, checkstring}
use luaposix.Lua.{Args, Host, Outcome, err, ok}
use luaposix.Lua.Checks.{◌>>=◌}
use luaposix.Sys.Socket.Options.{
  OptionCalls, OptionValue, Slot, copy_name, ifname, ifname_slot, int_value, ipv6_value, linger,
  linger_slot, mreq6, option_slot, option_value, socket_value, timeval, timeval_slot, vint,
  vint_slot,
}

-- the variable of Pgetsockopt that has the type of a value, with its size; there is none for a
-- membership of a group, which can only be set
abbrev pub SlotFor : {W : Type 0} → OptionCalls W → OptionValue → ℕ → Slot × ℕ → Type 0
SlotFor os (linger a b) len slot = (slot ≡ (linger_slot, os.sizeof_linger)) × (len ≡ slot.1)
SlotFor os (timeval a b) len slot = (slot ≡ (timeval_slot, os.sizeof_timeval)) × (len ≡ slot.1)
SlotFor os (ifname name) len slot =
    (slot ≡ (ifname_slot, os.ifnamsiz)) × (len ≡ length name) × (len ≤ os.ifnamsiz - 1)
SlotFor os (mreq6 group) len slot = len ≡ os.sizeof_mreq6
SlotFor os (vint n) len slot = (slot ≡ (vint_slot, os.sizeof_int)) × (len ≡ slot.1)

module _ ⦃lua : Host⦄ {W : Type 0} (os : OptionCalls W) where
  -- where a check returns, its value is for the variable
  abbrev FitsSlot : Outcome (OptionValue × ℕ) → Slot × ℕ → Type 0
  FitsSlot r slot = (t : OptionValue × ℕ) → r ≡ ok t → SlotFor os t.0 t.1 slot

  ok_fits : (u : OptionValue × ℕ) (slot : Slot × ℕ) → SlotFor os u.0 u.1 slot → FitsSlot (ok u) slot
  ok_fits u slot h t e = subst (λ (x : OptionValue × ℕ). SlotFor os x.0 x.1 slot) (cc e) h

  check_fits :
      {A : Type 0} (r : Outcome A) (f : A → Outcome (OptionValue × ℕ)) (slot : Slot × ℕ)
      → ((a : A) → FitsSlot (f a) slot)
      → FitsSlot (r >>= f) slot
  check_fits (ok a) f slot h t e = h a t e
  check_fits (err x) f slot h t e = ground arith

  if_fits :
      (b : Bool) (r r' : Outcome (OptionValue × ℕ)) (slot slot' : Slot × ℕ)
      → FitsSlot r slot
      → FitsSlot r' slot'
      → FitsSlot (if b then r else r') (if b then slot else slot')
  if_fits true r r' slot slot' h h' = h
  if_fits false r r' slot slot' h h' = h'

  if_both :
      (b : Bool) (r r' : Outcome (OptionValue × ℕ)) (slot : Slot × ℕ)
      → FitsSlot r slot
      → FitsSlot r' slot
      → FitsSlot (if b then r else r') slot
  if_both true r r' slot h h' = h
  if_both false r r' slot h h' = h'

  int_fits : (args : Args) → FitsSlot (int_value os args) (vint_slot, os.sizeof_int)
  unfolding int_value
  int_fits args =
      check_fits (checkinteger args 4) _ _
        λ n. ok_fits (vint (cast_int n), os.sizeof_int) _ (refl, refl)

  name_length : (name : Bytes) → length (copy_name (os.ifnamsiz - 1) name) ≤ os.ifnamsiz - 1
  name_length name = omega (arith, length-take (os.ifnamsiz - 1) (until_zero name))

  socket_fits :
      (optname : ℤ) (args : Args)
      → FitsSlot (socket_value os optname args) (
          if eq_ℤ optname os.so_linger
          then (linger_slot, os.sizeof_linger)
          else if eq_ℤ optname os.so_rcvtimeo || eq_ℤ optname os.so_sndtimeo
          then (timeval_slot, os.sizeof_timeval)
          else if eq_ℤ optname os.so_bindtodevice
          then (ifname_slot, os.ifnamsiz)
          else (vint_slot, os.sizeof_int))
  unfolding socket_value
  socket_fits optname args =
      if_fits _ _ _ _ _
        (check_fits (checknargs args 5) _ _ λ u. check_fits (checkinteger args 4) _ _ λ onoff.
          check_fits (checkinteger args 5) _ _ λ seconds.
            ok_fits (linger (cast_int onoff) (cast_int seconds), os.sizeof_linger) _ (refl, refl))
        (if_fits _ _ _ _ _
          (check_fits (checknargs args 5) _ _ λ u. check_fits (checkinteger args 4) _ _ λ sec.
            check_fits (checkinteger args 5) _ _
              λ usec. ok_fits (timeval sec usec, os.sizeof_timeval) _ (refl, refl))
          (if_fits _ _ _ _ _
            (check_fits (checknargs args 4) _ _ λ u. check_fits (checkstring args 4) _ _ λ name.
              let copied = copy_name (os.ifnamsiz - 1) name in
              ok_fits (ifname copied, length copied) _ (refl, refl, name_length name))
            (check_fits (checknargs args 4) _ _ λ u. int_fits args)))

  ipv6_fits :
      (optname : ℤ) (args : Args) → FitsSlot (ipv6_value os optname args) (vint_slot, os.sizeof_int)
  unfolding ipv6_value
  ipv6_fits optname args =
      if_both _ _ _ _
        (check_fits (checknargs args 4) _ _ λ u.
          check_fits (checkstring args 4) _ _
            λ group. ok_fits (mreq6 (os.pton6 group), os.sizeof_mreq6) _ refl)
        (check_fits (checknargs args 4) _ _ λ u. int_fits args)

  -- Whatever option a call of setsockopt sets, but for a membership of a group: the variable that
  -- getsockopt has filled for the same level and option has the type of the value that was set,
  -- and its size; the name of a device has room in it.
  pub option_kinds_agree :
      (level optname : ℤ) (args : Args) (v : OptionValue) (len : ℕ)
      → option_value os level optname args ≡ ok (v, len)
      → SlotFor os v len (option_slot os level optname)
  unfolding option_value
  option_kinds_agree level optname args v len e =
      if_fits _ _ _ _ _ (socket_fits optname args)
        (if_both _ _ _ _ (ipv6_fits optname args)
          (if_both _ _ _ _ (check_fits (checknargs args 4) _ _ λ u. int_fits args) (int_fits args)))
        (v, len) e
