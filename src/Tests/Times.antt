-- ===== src/Tests/Times.antt =====
-- The theorems on times, each at one pair of times.

-- floats, which the examples do not have
use luaposix.Base.{[], arith, false, lit, minus_one, none, pos, refl, some, ℕ, ◌+ℤ◌, ◌≡◌}
use luaposix.Lua.{Value, empty, entry, get_entry, int, integer, nil, ok, string, table}
use luaposix.Posix.Timevals.{Floats, p_timeradd, p_timercmp, p_timersub, sec_usec, time_fields}
use luaposix.Posix.Timevals.Laws.{timeradd_keeps_million, timersub-timeradd}
use luaposix.Tests.Fixtures.{lua54}

abbrev plain_numbers : Floats
plain_numbers = record {
  numeral = λ s. none;
  add = λ m n. m;
  subtract = λ m n. m;
  equal = λ m n. false;
  above_million = λ x. false;
  below_zero = λ x. false;
  minus = λ v w. ok nil;
}

abbrev older_time : Value
older_time = table [] (
    entry (string (lit "sec")) (integer (pos 1))
      (entry (string (lit "usec")) (integer (pos 600000)) empty))

abbrev newer_time : ℕ → Value
newer_time usec = table [] (
    entry (string (lit "tv_sec")) (integer (pos 2))
      (entry (string (lit "tv_usec")) (integer (pos usec)) empty))

older_fields :
    time_fields ⦃lua = lua54⦄ plain_numbers older_time ≡ ok (int (pos 1), int (pos 600000))
unfolding time_fields get_entry
older_fields = refl

newer_fields :
    (usec : ℕ)
    → time_fields ⦃lua = lua54⦄ plain_numbers (newer_time usec) ≡ ok (int (pos 2), int (pos usec))
unfolding time_fields get_entry
newer_fields usec = refl

timersub-timeradd_example :
    (z : Value) × (p_timeradd ⦃lua = lua54⦄ plain_numbers 3 older_time (newer_time 1700000)
      ≡ ok (some z))
    × (p_timersub ⦃lua = lua54⦄ plain_numbers 4 z (newer_time 1700000)
        ≡ ok (some (sec_usec (int (pos 1)) (int (pos 600000)))))
timersub-timeradd_example =
    timersub-timeradd ⦃lua = lua54⦄ plain_numbers 3 older_time (newer_time 1700000) (pos 1) (pos 2)
      600000 1700000 older_fields (newer_fields 1700000) (omega arith) (omega arith) (omega arith)
      (omega arith) (omega arith) (omega arith)

timeradd_keeps_million_example :
    (z : Value) × (p_timeradd ⦃lua = lua54⦄ plain_numbers 1 older_time (newer_time 400000)
      ≡ ok (some z))
    × (p_timercmp ⦃lua = lua54⦄ plain_numbers z
          (sec_usec (int (pos 1 +ℤ pos 2 +ℤ pos 1)) (int (pos 0)))
        ≡ ok (integer minus_one))
timeradd_keeps_million_example =
    timeradd_keeps_million ⦃lua = lua54⦄ plain_numbers 0 older_time (newer_time 400000) (pos 1)
      (pos 2) 600000 400000 older_fields (newer_fields 400000) (omega arith) (omega arith)
      (omega arith) refl
