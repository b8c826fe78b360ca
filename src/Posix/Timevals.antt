-- ===== src/Posix/Timevals.antt =====
-- lib/posix/init.lua: sums, differences and the order of times. A time is a table with sec and usec,
-- or with tv_sec and tv_usec.
pub mod Loops
pub mod Laws
use luaposix.Base.{
  Bool, Bytes, Option, [], cast_long, eq_ℤ, if◌then◌else◌, is_negative, lit, ltb_ℤ, none, pos, some,
  suc, zero, ℕ, ◌+ℤ◌, ◌-ℤ◌, ◌∷◌,
}
use luaposix.Lua.{
  Host, Number, Outcome, Value, empty, err, float, get_entry, int, integer, number, ok, run_error,
  string, table, to_boolean, type_of,
}
use luaposix.Lua.Checks.{◌>>=◌, ◌>>◌}
use luaposix.Posix.LegacyTime.{lua_table}
use luaposix.Posix.Script.{raw_equal}

-- Lua's arithmetic where an operand is no integer.
pub record Floats : Type 0 where
  -- what tonumber makes of a text
  pub numeral : Bytes → Option Number
  pub add : Number → Number → Number
  pub subtract : Number → Number → Number
  pub equal : Number → Number → Bool
  pub above_million : ℕ → Bool
  pub below_zero : ℕ → Bool
  -- `-` on values that are not both numbers
  pub minus : Value → Value → Outcome Value

module _ (num : Floats) where
  unfoldable pub add_numbers : Number → Number → Number
  add_numbers (int m) (int n) = int (cast_long (m +ℤ n))
  add_numbers m n = num.add m n

  unfoldable pub subtract_numbers : Number → Number → Number
  subtract_numbers (int m) (int n) = int (cast_long (m -ℤ n))
  subtract_numbers m n = num.subtract m n

  unfoldable pub is_above_million : Number → Bool
  is_above_million (int n) = ltb_ℤ (pos 1000000) n
  is_above_million (float x) = num.above_million x

  unfoldable pub is_below_zero : Number → Bool
  is_below_zero (int n) = is_negative n
  is_below_zero (float x) = num.below_zero x

  abbrev pub numeral_or_zero : Option Number → Number
  numeral_or_zero none = int (pos 0)
  numeral_or_zero (some n) = n

  -- `tonumber(v) or 0`
  abbrev pub number_or_zero : Value → Number
  number_or_zero (number n) = n
  number_or_zero (string s) = numeral_or_zero (num.numeral s)
  number_or_zero v = int (pos 0)

  -- `while usec > 1000000`, and none if there is too little fuel
  unfoldable pub carry : ℕ → Number → Number → Option (Number × Number)
  carry zero sec usec = none
  carry (suc fuel) sec usec =
      let rest =
        carry fuel (add_numbers sec (int (pos 1))) (subtract_numbers usec (int (pos 1000000))) in
      if is_above_million usec then rest else some (sec, usec)

  -- `while usec < 0`
  unfoldable pub borrow : ℕ → Number → Number → Option (Number × Number)
  borrow zero sec usec = none
  borrow (suc fuel) sec usec =
      let rest =
        borrow fuel (subtract_numbers sec (int (pos 1))) (add_numbers usec (int (pos 1000000))) in
      if is_below_zero usec then rest else some (sec, usec)

abbrev pub or_value : Value → Value → Value
or_value v w = if to_boolean v then v else w

unfoldable pub sec_usec : Number → Number → Value
unfolding lua_table
sec_usec sec usec = lua_table ((lit "sec", number sec) ∷ (lit "usec", number usec) ∷ []) empty

abbrev pub table_of : Option (Number × Number) → Option Value
table_of none = none
table_of (some (sec, usec)) = some (sec_usec sec usec)

module _ ⦃lua : Host⦄ (num : Floats) where
  -- the fields of a time, as Ptimeradd and Ptimersub choose them
  unfoldable pub time_fields : Value → Outcome (Number × Number)
  unfolding get_entry
  time_fields (table type t) =
      let tv_sec = get_entry (lit "tv_sec") t in
      let tv_usec = get_entry (lit "tv_usec") t in
      ok (
        if to_boolean (or_value tv_sec tv_usec)
        then (number_or_zero num tv_sec, number_or_zero num tv_usec)
        else (
          number_or_zero num (get_entry (lit "sec") t),
          number_or_zero num (get_entry (lit "usec") t),
        ))
  time_fields v = err (run_error (lua.index_error (type_of v)))

  unfoldable pub p_timeradd : ℕ → Value → Value → Outcome (Option Value)
  p_timeradd fuel x y = do
    a ← time_fields x
    b ← time_fields y
    let sec = add_numbers num (add_numbers num (int (pos 0)) a.0) b.0
    let usec = add_numbers num (add_numbers num (int (pos 0)) a.1) b.1
    ok (table_of (carry num fuel sec usec))

  unfoldable pub p_timersub : ℕ → Value → Value → Outcome (Option Value)
  p_timersub fuel x y = do
    a ← time_fields x
    b ← time_fields y
    ok (table_of (borrow num fuel (subtract_numbers num a.0 b.0) (subtract_numbers num a.1 b.1)))

  -- `x.tv_sec or x.sec or 0` and the same for usec
  unfoldable pub compared_fields : Value → Outcome (Value × Value)
  unfolding get_entry
  compared_fields (table type t) = ok (
    or_value (get_entry (lit "tv_sec") t) (or_value (get_entry (lit "sec") t) (integer (pos 0))),
    or_value (get_entry (lit "tv_usec") t) (or_value (get_entry (lit "usec") t) (integer (pos 0))),
  )
  compared_fields v = err (run_error (lua.index_error (type_of v)))

  abbrev pub same_value : Value → Value → Bool
  same_value (number (int m)) (number (int n)) = eq_ℤ m n
  same_value (number m) (number n) = num.equal m n
  same_value v w = raw_equal v w

  abbrev pub minus_values : Value → Value → Outcome Value
  minus_values (number m) (number n) = ok (number (subtract_numbers num m n))
  minus_values v w = num.minus v w

  unfoldable pub p_timercmp : Value → Value → Outcome Value
  p_timercmp x y = do
    a ← compared_fields x
    b ← compared_fields y
    if same_value a.0 b.0 then minus_values a.1 b.1 else minus_values a.0 b.0
