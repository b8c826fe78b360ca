-- ===== src/Tests/Clocks.antt =====
-- The theorems on times and timeouts, each at one call.
use luaposix.Base.{List, [], arith, lit, minus_one, negsuc, none, pos, refl, some, ◌∷◌, ◌≡◌}
use luaposix.Lua.{Machine, Value, err, integer, nil, run_error, string}
use luaposix.Posix.LegacyTime.{Arithmetic}
use luaposix.Posix.LegacyTime.Calls.{mktime_of_localtime, nanosleep_fails}
use luaposix.Posix.LegacyTime.Functions.{legacy_localtime, legacy_mktime, legacy_nanosleep}
use luaposix.Posix.LegacyTime.Laws.{older}
use luaposix.Posix.Script.{returned, thrown}
use luaposix.Tests.Fixtures.{Ledger, idle, lua54}
use luaposix.Time.Bindings.{TimeCalls}
use luaposix.Time.RoundTrip.{IsInts}
use luaposix.Time.Structs.{Timespec, Tm}

abbrev second : Timespec
second = record { tv_sec = pos 1; tv_nsec = pos 0 }

abbrev half : Timespec
half = record { tv_sec = pos 0; tv_nsec = pos 500000000 }

abbrev new_year : Tm
new_year = record {
  tm_sec = pos 0;
  tm_min = pos 0;
  tm_hour = pos 0;
  tm_mday = pos 31;
  tm_mon = pos 11;
  tm_year = pos 69;
  tm_wday = pos 3;
  tm_yday = pos 364;
  tm_isdst = pos 0;
  tm_gmtoff = pos 0;
  tm_zone = none;
}

new_year-IsInts : IsInts new_year
new_year-IsInts = record {
  sec = omega arith;
  minute = omega arith;
  hour = omega arith;
  mday = omega arith;
  mon = omega arith;
  year = omega arith;
  wday = omega arith;
  yday = omega arith;
  isdst = omega arith;
  gmtoff = omega arith;
}

abbrev interrupted : Machine Ledger
interrupted = record idle { errno = pos 4 }

-- a clock on which each time is a day before the epoch, and each sleep is interrupted halfway
abbrev old_clock : TimeCalls Ledger
old_clock = record {
  clock_getres = λ clock m. ((pos 0, second), m);
  clock_gettime = λ clock m. ((pos 0, second), m);
  gmtime_r = λ epoch m. (some new_year, m);
  localtime_r = λ epoch m. (some new_year, m);
  mktime = λ t m. (negsuc 86399, m);
  nanosleep = λ ts m. ((minus_one, half), record m { errno = pos 4 });
  strftime = λ size format t m. (lit "1969", m);
  strptime = λ s format m. (none, m);
  time = λ m. (negsuc 86399, m);
  eintr = pos 4;
}

abbrev failure : List Value
failure = nil ∷ string (lit "nanosleep: error") ∷ integer (pos 4) ∷ []

-- Lua's arithmetic on values that are no integers is not met here
abbrev no_arithmetic : Arithmetic
no_arithmetic = record {
  add = λ v k. err (run_error (lit "attempt to perform arithmetic"));
  compare_zero = λ v. err (run_error (lit "attempt to compare"));
}

mktime_of_localtime_example :
    (legacy_localtime ⦃lua = lua54⦄ old_clock no_arithmetic (integer (negsuc 86399)) idle
      ≡ (returned (older new_year ∷ []), idle))
    × (legacy_mktime ⦃lua = lua54⦄ old_clock no_arithmetic (older new_year) idle
        ≡ (returned [], idle))
mktime_of_localtime_example =
    mktime_of_localtime ⦃lua = lua54⦄ old_clock no_arithmetic new_year (negsuc 86399) (negsuc 86399)
      idle idle idle idle new_year-IsInts refl refl

abbrev failed : Machine Ledger
failed = record idle { errno = pos 22 }

abbrev refusing_clock : TimeCalls Ledger
refusing_clock = record old_clock { nanosleep = λ ts m. ((minus_one, half), failed) }

nanosleep_fails_example :
    legacy_nanosleep ⦃lua = lua54⦄ refusing_clock no_arithmetic
      (integer (pos 1))
      (integer (pos 0))
      idle
    ≡ (thrown (run_error (lit "attempt to index")), failed)
nanosleep_fails_example =
    nanosleep_fails ⦃lua = lua54⦄ refusing_clock no_arithmetic (pos 1) (pos 0) half idle failed refl
