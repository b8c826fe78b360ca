-- ===== src/Time/Bindings.antt =====
-- ext/posix/time.c: the bindings.
use luaposix.Base.{
  Bytes, List, Option, [], eq_ℤ, if◌then◌else◌, is_negative, length, lit, minus_one, none, pos,
  some, ℕ, ℤ, ◌&&◌, ◌++◌, ◌+◌, ◌==◌, ◌∷◌,
}
use luaposix.Helpers.Args.{checkint, checkinteger, checknargs, checkstring}
use luaposix.Helpers.Results.{pusherror, pushintegerresult, pushresult, pushstringresult}
use luaposix.Lua.{
  Binding, Call, Exec, Host, Value, call, integer, lift, pure, read_errno, ◌>>=◌, ◌>>◌,
}
use luaposix.Time.Structs.{Timespec, Tm, pushtimespec, pushtm, totimespec, totm}

pub record TimeCalls (W : Type 0) : Type 0 where
  pub clock_getres : ℤ → Call W (ℤ × Timespec)
  pub clock_gettime : ℤ → Call W (ℤ × Timespec)
  -- none is NULL
  pub gmtime_r : ℤ → Call W (Option Tm)
  pub localtime_r : ℤ → Call W (Option Tm)
  pub mktime : Tm → Call W ℤ
  -- the result, and the time that was not slept
  pub nanosleep : Timespec → Call W (ℤ × Timespec)
  -- the size of the buffer, the format and the time; the buffer up to its first zero
  pub strftime : ℕ → Bytes → Tm → Call W Bytes
  -- how many bytes were parsed, and what they say
  pub strptime : Bytes → Bytes → Call W (Option (ℕ × Tm))
  pub time : Call W ℤ
  pub eintr : ℤ

module _ ⦃lua : Host⦄ {W : Type 0} (os : TimeCalls W) where
  unfoldable pub p_clock_getres : Binding W
  unfolding ◌>>=◌ checkint checknargs pusherror pushtimespec
  p_clock_getres args = do
    clk ← lift (checkint args 1)
    lift (checknargs args 1)
    (r, resolution) ← call (os.clock_getres clk)
    if eq_ℤ r minus_one
        then pusherror (some (lit "clock_getres"))
        else pure (pushtimespec resolution ∷ [])

  unfoldable pub p_clock_gettime : Binding W
  unfolding ◌>>=◌ checkint checknargs pusherror pushtimespec
  p_clock_gettime args = do
    clk ← lift (checkint args 1)
    lift (checknargs args 1)
    (r, ts) ← call (os.clock_gettime clk)
    if eq_ℤ r minus_one then pusherror (some (lit "clock_gettime")) else pure (pushtimespec ts ∷ [])

  abbrev pub tm_or_error : Bytes → Option Tm → Exec W (List Value)
  tm_or_error info none = pusherror (some info)
  tm_or_error info (some t) = pure (pushtm t ∷ [])

  unfoldable pub p_gmtime : Binding W
  unfolding ◌>>=◌ checkinteger checknargs pusherror pushtm
  p_gmtime args = do
    epoch ← lift (checkinteger args 1)
    lift (checknargs args 1)
    t ← call (os.gmtime_r epoch)
    tm_or_error (lit "gmtime") t

  unfoldable pub p_localtime : Binding W
  unfolding ◌>>=◌ checkinteger checknargs pusherror pushtm
  p_localtime args = do
    epoch ← lift (checkinteger args 1)
    lift (checknargs args 1)
    t ← call (os.localtime_r epoch)
    tm_or_error (lit "localtime") t

  unfoldable pub p_mktime : Binding W
  unfolding ◌>>=◌ checknargs totm pushintegerresult
  p_mktime args = do
    lift (checknargs args 1)
    t ← lift (totm args 1)
    epoch ← call (os.mktime t)
    if is_negative epoch then pure [] else pushintegerresult epoch

  -- the errno that is tested is what pusherror has left alone
  unfoldable pub p_nanosleep : Binding W
  unfolding ◌>>=◌ totimespec checknargs pushresult pushtimespec
  p_nanosleep args = do
    req ← lift (totimespec args 1)
    lift (checknargs args 1)
    (r, rem) ← call (os.nanosleep req)
    results ← pushresult r (some (lit "nanosleep"))
    errno ← read_errno
    if length results == 3 && eq_ℤ errno os.eintr
        then pure (results ++ pushtimespec rem ∷ [])
        else pure results

  unfoldable pub p_strftime : Binding W
  unfolding ◌>>=◌ checkstring totm checknargs pushstringresult
  p_strftime args = do
    fmt ← lift (checkstring args 1)
    t ← lift (totm args 2)
    lift (checknargs args 2)
    tmp ← call (os.strftime 256 fmt t)
    pushstringresult tmp

  abbrev pub parsed : Option (ℕ × Tm) → List Value
  parsed none = []
  parsed (some (n, t)) = pushtm t ∷ integer (pos (n + 1)) ∷ []

  unfoldable pub p_strptime : Binding W
  unfolding ◌>>=◌ checkstring checknargs pushtm
  p_strptime args = do
    s ← lift (checkstring args 1)
    fmt ← lift (checkstring args 2)
    lift (checknargs args 2)
    r ← call (os.strptime s fmt)
    pure (parsed r)

  -- the clock is read before the arguments are counted
  unfoldable pub p_time : Binding W
  unfolding ◌>>=◌ checknargs pusherror pushintegerresult
  p_time args = do
    t ← call os.time
    lift (checknargs args 0)
    if eq_ℤ t minus_one then pusherror (some (lit "time")) else pushintegerresult t
