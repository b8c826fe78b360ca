-- ===== src/Posix/LegacyTime/Calls.antt =====
-- lib/posix/deprecated.lua: the older functions of time, through the bindings to the system.
use luaposix.Base.{
  Bool-cases, [], cast_int, eq_ℤ, if◌then◌else◌, inl, inr, is_negative, lit, minus_one, negsuc, pos,
  refl, some, true, ℤ, ◌++◌, ◌∷◌, ◌≡◌,
}
use luaposix.Helpers.Args.{checkinteger, checknargs}
use luaposix.Helpers.Results.{pushintegerresult}
use luaposix.Lua.{
  Host, LuaType, Machine, Value, empty, get_entry, integer, nil, ok, run_error, string, to_boolean,
}
use luaposix.Posix.LegacyTime.{Arithmetic, attempt, lua_table, unslept}
use luaposix.Posix.LegacyTime.Functions.{
  epoch_or_now, legacy_localtime, legacy_mktime, legacy_nanosleep, posix_or_now,
}
use luaposix.Posix.LegacyTime.Laws.{newer, older, older_round_trip, with_sign}
use luaposix.Posix.Script.{call_binding, give, returned, thrown, ◌>>=◌}
use luaposix.Time.Bindings.{TimeCalls, p_localtime, p_mktime, p_nanosleep}
use luaposix.Time.RoundTrip.{IsInts}
use luaposix.Time.Structs.{Timespec, Tm, pushtimespec, pushtm, totm}

module _ ⦃lua : Host⦄ {W : Type 0} (os : TimeCalls W) (num : Arithmetic) where
  localtime_gives :
      (t : Tm) (epoch : ℤ) (w v : Machine W)
      → os.localtime_r epoch w ≡ (some t, v)
      → call_binding (p_localtime os) (integer epoch ∷ []) w ≡ (returned (pushtm t ∷ []), v)
  unfolding call_binding p_localtime checkinteger checknargs
  localtime_gives t epoch w v e = rw e refl

  mktime_takes :
      (v : Value) (t : Tm) (seconds : ℤ) (u u' : Machine W)
      → totm (v ∷ []) 1 ≡ ok t
      → os.mktime t u ≡ (seconds, u')
      → call_binding (p_mktime os) (v ∷ []) u
        ≡ (returned (if is_negative seconds then [] else integer seconds ∷ []), u')
  unfolding call_binding p_mktime checknargs pushintegerresult
  mktime_takes v t (pos n) u u' e f = rw (e, f) refl
  mktime_takes v t (negsuc n) u u' e f = rw (e, f) refl

  older_is_true : (t : Tm) → to_boolean (older t) ≡ true
  unfolding lua_table
  older_is_true t = refl

  nanosleep_results :
      (sec nsec : ℤ) (rest : Timespec) (w w' : Machine W)
      → os.nanosleep (record { tv_sec = sec; tv_nsec = nsec }) w ≡ ((minus_one, rest), w')
      → let failure =
          nil
          ∷ string (lit "nanosleep" ++ (lit ": " ++ lua.strerror w'.errno))
          ∷ integer w'.errno
          ∷ [] in
        call_binding
          (p_nanosleep os)
          (lua_table ((lit "tv_sec", integer sec) ∷ (lit "tv_nsec", integer nsec) ∷ []) empty ∷ [])
          w
        ≡ (if eq_ℤ w'.errno os.eintr
            then (returned (failure ++ (pushtimespec rest ∷ [])), w')
            else (returned failure, w'))
  unfolding call_binding p_nanosleep lua_table cast_int
  nanosleep_results sec nsec rest w w' e = elim (Bool-cases (eq_ℤ w'.errno os.eintr)) [
    | inl x ↦ rw (e, x) refl
    | inr x ↦ rw (e, x) refl
  ]

  -- Where localtime_r gives a time whose fields fit an int: localtime returns it in the older form,
  -- and mktime of that table, at any later time, asks the system for exactly this time, but that
  -- tm_isdst is -1, 0 or 1 by its sign; an epoch time from 0 on is returned, and for one before 1970
  -- no value at all.
  pub mktime_of_localtime :
      (t : Tm) (epoch seconds : ℤ) (w v u u' : Machine W)
      → IsInts t
      → os.localtime_r epoch w ≡ (some t, v)
      → os.mktime (with_sign t) u ≡ (seconds, u')
      → (legacy_localtime os num (integer epoch) w ≡ (returned (older t ∷ []), v))
        × (legacy_mktime os num (older t) u
            ≡ (returned (if is_negative seconds then [] else integer seconds ∷ []), u'))
  unfolding legacy_localtime legacy_mktime epoch_or_now posix_or_now attempt give ◌>>=◌
  mktime_of_localtime t epoch seconds w v u u' i e f =
      let (older_is, newer_is, read) = older_round_trip num t [] i in
      (
        rw (localtime_gives t epoch w v e, older_is) refl,
        rw (older_is_true t, newer_is) (mktime_takes (newer t) (with_sign t) seconds u u' read f),
      )

  -- nanosleep is asked for the seconds and nanoseconds that it is given. Where it fails with EINTR,
  -- the call returns nil, a message, errno and the time that was not slept; where it fails in any
  -- other way, the call does not return these but raises an error, since it indexes nil.
  pub nanosleep_fails :
      (sec nsec : ℤ) (rest : Timespec) (w w' : Machine W)
      → os.nanosleep (record { tv_sec = sec; tv_nsec = nsec }) w ≡ ((minus_one, rest), w')
      → legacy_nanosleep os num (integer sec) (integer nsec) w ≡ (
        if eq_ℤ w'.errno os.eintr
            then returned (
                nil
                ∷ string (lit "nanosleep" ++ (lit ": " ++ lua.strerror w'.errno))
                ∷ integer w'.errno
                ∷ integer rest.tv_sec
                ∷ integer rest.tv_nsec
                ∷ [])
            else thrown (run_error (lua.index_error LuaType.tnil)),
        w',
      )
  unfolding legacy_nanosleep attempt unslept pushtimespec get_entry give ◌>>=◌
  nanosleep_fails sec nsec rest w w' e = elim (Bool-cases (eq_ℤ w'.errno os.eintr)) [
    | inl y ↦ rw (nanosleep_results sec nsec rest w w' e, y) refl
    | inr n ↦ rw (nanosleep_results sec nsec rest w w' e, n) refl
  ]
