-- ===== src/Sys/Times.antt =====
-- ext/posix/sys/times.c and ext/posix/sys/time.c.
use luaposix.Base.{
  List, [], eq_ℤ, if◌then◌else◌, lit, minus_one, negsuc, pos, some, suc, zero, ℕ, ℤ, ◌/◌, ◌∷◌,
}
use luaposix.Helpers.Args.{checknargs}
use luaposix.Helpers.Results.{pusherror, typed_table}
use luaposix.Lua.{Binding, Call, Exec, Host, Value, call, integer, lift, ok, pure, ◌>>=◌, ◌>>◌}

pub record Tms : Type 0 where
  pub tms_utime : ℤ
  pub tms_stime : ℤ
  pub tms_cutime : ℤ
  pub tms_cstime : ℤ

pub record TimesCalls (W : Type 0) : Type 0 where
  -- the clock ticks that have elapsed, and the times of the process in ticks
  pub times : Call W (ℤ × Tms)
  -- sysconf (_SC_CLK_TCK)
  pub ticks_per_second : Call W ℤ
  -- the result, tv_sec and tv_usec
  pub gettimeofday : Call W (ℤ × ℤ × ℤ)

-- the process with the static variable of pushtms
pub record Ticking (W : Type 0) : Type 0 where
  pub clk_tck : ℤ
  pub system : W

abbrev negated : ℕ → ℤ
negated zero = pos 0
negated (suc n) = negsuc n

-- the division of C, which rounds to zero
abbrev pub quot : ℤ → ℤ → ℤ
quot (pos a) (pos b) = pos (a / b)
quot (pos a) (negsuc b) = negated (a / suc b)
quot (negsuc a) (pos b) = negated (suc a / b)
quot (negsuc a) (negsuc b) = pos (suc a / suc b)

abbrev pub on_system : {W A : Type 0} → Call W A → Call (Ticking W) A
on_system c m =
    let (a, m') = c (record { errno = m.errno; kernel = m.kernel.system }) in
    (a, record { errno = m'.errno; kernel = record (m.kernel) { system = m'.kernel } })

-- the table of pushtms
unfoldable pub tms_table : ℤ → ℤ → Tms → Value
unfolding typed_table
tms_table clk_tck elapsed t = typed_table (lit "PosixTms") (
    (lit "elapsed", integer (quot elapsed clk_tck))
    ∷ (lit "tms_utime", integer (quot t.tms_utime clk_tck))
    ∷ (lit "tms_stime", integer (quot t.tms_stime clk_tck))
    ∷ (lit "tms_cutime", integer (quot t.tms_cutime clk_tck))
    ∷ (lit "tms_cstime", integer (quot t.tms_cstime clk_tck))
    ∷ [])

unfoldable pub pushtimeval : ℤ → ℤ → Value
unfolding typed_table
pushtimeval tv_sec tv_usec =
    typed_table (lit "PosixTimeval")
      ((lit "tv_sec", integer tv_sec) ∷ (lit "tv_usec", integer tv_usec) ∷ [])

module _ ⦃lua : Host⦄ {W : Type 0} (os : TimesCalls W) where
  unfoldable pub read_clk_tck : Exec (Ticking W) ℤ
  read_clk_tck w = (ok w.kernel.clk_tck, w)

  unfoldable pub write_clk_tck : ℤ → Exec (Ticking W) (Unit {0})
  write_clk_tck n w = (ok tt, record w { kernel = record (w.kernel) { clk_tck = n } })

  -- the test of clk_tck, and what it guards
  unfoldable pub find_clk_tck : Exec (Ticking W) (Unit {0})
  unfolding ◌>>=◌ read_clk_tck write_clk_tck
  find_clk_tck = do
    n ← read_clk_tck
    if eq_ℤ n (pos 0)
        then (do ticks ← call (on_system os.ticks_per_second); write_clk_tck ticks)
        else pure tt

  unfoldable pub pushtms : Exec (Ticking W) (List Value)
  unfolding ◌>>=◌ find_clk_tck pusherror tms_table
  pushtms = do
    (elapsed, t) ← call (on_system os.times)
    if eq_ℤ elapsed minus_one
        then pusherror (some (lit "times"))
        else do find_clk_tck; clk_tck ← read_clk_tck; pure (tms_table clk_tck elapsed t ∷ [])

  unfoldable pub p_times : Binding (Ticking W)
  unfolding ◌>>=◌ checknargs pushtms
  p_times args = do lift (checknargs args 0); pushtms

  unfoldable pub p_gettimeofday : Binding W
  unfolding ◌>>=◌ checknargs pusherror pushtimeval
  p_gettimeofday args = do
    lift (checknargs args 0)
    (r, tv_sec, tv_usec) ← call os.gettimeofday
    if eq_ℤ r minus_one
        then pusherror (some (lit "gettimeofday"))
        else pure (pushtimeval tv_sec tv_usec ∷ [])
