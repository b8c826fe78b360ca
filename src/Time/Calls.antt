-- ===== src/Time/Calls.antt =====
-- ext/posix/time.c: Pmktime and Pnanosleep, from the tables that they are given to their results.
use luaposix.Base.{
  [], arith, cast_int, eq_ℤ_iff, lit, minus_one, negsuc, pos, ℤ, ◌++◌, ◌<ℤ◌, ◌∷◌, ◌≡◌, ◌≢◌, ◌≤ℤ◌,
}
use luaposix.Lua.{Host, Machine, integer, nil, ok, string}
use luaposix.Time.Bindings.{TimeCalls, p_mktime, p_nanosleep}
use luaposix.Time.RoundTrip.{IsInts, timespec_round_trip, tm_round_trip}
use luaposix.Time.Structs.{Timespec, Tm, pushtimespec, pushtm, totimespec}

module _ ⦃lua : Host⦄ {W : Type 0} (os : TimeCalls W) where
  -- mktime is asked for exactly the time that the table shows; an epoch time from 0 on is returned,
  -- and for one before 1970 the call returns no value at all.
  pub mktime_by_sign :
      (t : Tm) (epoch : ℤ) (w w' : Machine W)
      → IsInts t
      → os.mktime t w ≡ (epoch, w')
      → (pos 0 ≤ℤ epoch → p_mktime os (pushtm t ∷ []) w ≡ (ok (integer epoch ∷ []), w'))
        × (epoch <ℤ pos 0 → p_mktime os (pushtm t ∷ []) w ≡ (ok [], w'))
  unfolding p_mktime
  mktime_by_sign t (pos n) w w' i e = (λ h. rw (tm_round_trip t [] i, e), λ h. absurd (omega arith))
  mktime_by_sign t (negsuc n) w w' i e =
      (λ h. absurd (omega arith), λ h. rw (tm_round_trip t [] i, e))

  -- nanosleep is asked for exactly the time that the table shows. Where it fails, the call returns
  -- nil, a message and errno, and behind them the time that was not slept exactly if errno is EINTR;
  -- that table, given to the next call, asks for exactly the rest.
  pub nanosleep_interrupted :
      (ts rest : Timespec) (w w' : Machine W)
      → os.nanosleep ts w ≡ ((minus_one, rest), w')
      → let failure =
          nil
          ∷ string (lit "nanosleep" ++ (lit ": " ++ lua.strerror w'.errno))
          ∷ integer w'.errno
          ∷ [] in
        (w'.errno ≡ os.eintr
          → p_nanosleep os (pushtimespec ts ∷ []) w
            ≡ (ok (failure ++ (pushtimespec rest ∷ [])), w'))
        × (w'.errno ≢ os.eintr → p_nanosleep os (pushtimespec ts ∷ []) w ≡ (ok failure, w'))
        × (totimespec (pushtimespec rest ∷ []) 1 ≡ ok rest)
  unfolding p_nanosleep cast_int
  nanosleep_interrupted ts rest w w' e = (
    λ h. ground (arith, e, h, eq_ℤ_iff w'.errno os.eintr, timespec_round_trip ts []),
    λ h. ground (arith, e, h, eq_ℤ_iff w'.errno os.eintr, timespec_round_trip ts []),
    timespec_round_trip rest [],
  )
