-- ===== src/Posix/LegacyTime/Functions.antt =====
-- lib/posix/deprecated.lua: gmtime, localtime, mktime, nanosleep, strftime, strptime and the clocks.
use luaposix.Base.{List, [], if◌then◌else◌, lit, pos, ◌∷◌}
use luaposix.Helpers.Args.{arg}
use luaposix.Lua.{Host, Value, empty, integer, to_boolean}
use luaposix.Posix.LegacyTime.{Arithmetic, attempt, legacy_tm, lua_table, posix_tm, unslept}
use luaposix.Posix.Script.{Script, call_binding, give, raw_equal, ◌>>=◌}
use luaposix.Time.Bindings.{
  TimeCalls, p_gmtime, p_localtime, p_mktime, p_nanosleep, p_strftime, p_strptime, p_time, parsed,
}

module _ ⦃lua : Host⦄ {W : Type 0} (os : TimeCalls W) (num : Arithmetic) where
  -- `epoch or time()`
  unfoldable pub epoch_or_now : Value → Script W Value
  epoch_or_now epoch =
      if to_boolean epoch
      then give epoch
      else do now ← call_binding (p_time os) []; give (arg now 1)

  unfoldable pub legacy_gmtime : Value → Script W (List Value)
  legacy_gmtime epoch = do
    t ← epoch_or_now epoch
    broken_down ← call_binding (p_gmtime os) (t ∷ [])
    tm ← attempt (legacy_tm num (arg broken_down 1))
    give (tm ∷ [])

  unfoldable pub legacy_localtime : Value → Script W (List Value)
  legacy_localtime epoch = do
    t ← epoch_or_now epoch
    broken_down ← call_binding (p_localtime os) (t ∷ [])
    tm ← attempt (legacy_tm num (arg broken_down 1))
    give (tm ∷ [])

  -- `legacytm and PosixTm(legacytm) or localtime(time())`
  unfoldable pub posix_or_now : Value → Script W Value
  posix_or_now legacytm = if to_boolean legacytm then attempt (posix_tm num legacytm) else do
    now ← call_binding (p_time os) []
    broken_down ← call_binding (p_localtime os) (arg now 1 ∷ [])
    give (arg broken_down 1)

  unfoldable pub legacy_mktime : Value → Script W (List Value)
  legacy_mktime legacytm = do t ← posix_or_now legacytm; call_binding (p_mktime os) (t ∷ [])

  unfoldable pub legacy_strftime : Value → Value → Script W (List Value)
  legacy_strftime fmt legacytm = do
    t ← posix_or_now legacytm
    call_binding (p_strftime os) (fmt ∷ t ∷ [])

  unfoldable pub legacy_strptime : Value → Value → Script W (List Value)
  legacy_strptime s fmt = do
    parsed ← call_binding (p_strptime os) (s ∷ fmt ∷ [])
    tm ← attempt (legacy_tm num (arg parsed 1))
    give (tm ∷ arg parsed 2 ∷ [])

  unfoldable pub legacy_nanosleep : Value → Value → Script W (List Value)
  legacy_nanosleep sec nsec = do
    results ←
        call_binding (p_nanosleep os)
          (lua_table ((lit "tv_sec", sec) ∷ (lit "tv_nsec", nsec) ∷ []) empty ∷ [])
    if raw_equal (arg results 1) (integer (pos 0))
        then give (integer (pos 0) ∷ [])
        else attempt (unslept num results)
