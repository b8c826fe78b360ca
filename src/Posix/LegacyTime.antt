-- ===== src/Posix/LegacyTime.antt =====
-- lib/posix/deprecated.lua: the times of the older interface, over the functions of posix.time.
pub mod Laws
pub mod Functions
pub mod Calls
use luaposix.Base.{
  Bool, Bytes, List, [], cast_long, false, if◌then◌else◌, is_negative, lit, ltb_ℤ, minus_one,
  negsuc, pos, true, ℤ, ◌+ℤ◌, ◌∷◌,
}
use luaposix.Helpers.Args.{arg}
use luaposix.Lua.{
  Host, Outcome, Table, Value, boolean, empty, err, get_entry, int, integer, nil, number, ok,
  run_error, set_field, table, to_boolean, type_of,
}
use luaposix.Lua.Checks.{◌>>=◌, ◌>>◌}
use luaposix.Posix.Script.{Script, ending_of}

-- Lua's arithmetic and comparison where a value is no integer.
pub record Arithmetic : Type 0 where
  pub add : Value → ℤ → Outcome Value
  pub compare_zero : Value → Outcome (Bool × Bool)

-- a table constructor: a field that is nil is not there
abbrev pub put_field : Bytes → Value → Table → Table
put_field k nil t = t
put_field k v t = set_field k v t

unfoldable pub lua_table : List (Bytes × Value) → Table → Value
unfolding set_field
lua_table [] t = table [] t
lua_table ((k, v) ∷ fields) t = lua_table fields (put_field k v t)

module _ {W A : Type 0} where
  unfoldable pub attempt : Outcome A → Script W A
  attempt r w = (ending_of r, w)

module _ ⦃lua : Host⦄ (num : Arithmetic) where
  -- `v.k`
  abbrev pub index : Bytes → Value → Outcome Value
  index k (table type t) = ok (get_entry k t)
  index k v = err (run_error (lua.index_error (type_of v)))

  -- `v + k`, which wraps around
  abbrev pub plus : Value → ℤ → Outcome Value
  plus (number (int n)) k = ok (integer (cast_long (n +ℤ k)))
  plus v k = num.add v k

  -- `v > 0` and `v < 0`
  abbrev pub sign_tests : Value → Outcome (Bool × Bool)
  sign_tests (number (int n)) = ok (ltb_ℤ (pos 0) n, is_negative n)
  sign_tests v = num.compare_zero v

  -- `v > 0 or (v < 0 and nil)`
  abbrev pub dst_flag : Bool × Bool → Value
  dst_flag (true, _) = boolean true
  dst_flag (false, true) = nil
  dst_flag (false, false) = boolean false

  unfoldable pub legacy_tm : Value → Outcome Value
  unfolding lua_table get_entry
  legacy_tm posixtm = do
    sec ← index (lit "tm_sec") posixtm
    minute ← index (lit "tm_min") posixtm
    hour ← index (lit "tm_hour") posixtm
    mday ← index (lit "tm_mday") posixtm
    mon ← index (lit "tm_mon") posixtm
    month ← plus mon (pos 1)
    tm_year ← index (lit "tm_year") posixtm
    year ← plus tm_year (pos 1900)
    wday ← index (lit "tm_wday") posixtm
    yday ← index (lit "tm_yday") posixtm
    isdst ← index (lit "tm_isdst") posixtm
    tests ← sign_tests isdst
    gmtoff ← index (lit "tm_gmtoff") posixtm
    zone ← index (lit "tm_zone") posixtm
    ok (
        lua_table
          ((lit "sec", sec)
            ∷ (lit "min", minute)
            ∷ (lit "hour", hour)
            ∷ (lit "monthday", mday)
            ∷ (lit "day", mday)
            ∷ (lit "month", month)
            ∷ (lit "year", year)
            ∷ (lit "weekday", wday)
            ∷ (lit "yearday", yday)
            ∷ (lit "is_dst", dst_flag tests)
            ∷ (lit "gmtoff", gmtoff)
            ∷ (lit "zone", zone)
            ∷ [])
          empty)

  -- `a or b`
  abbrev pub or_else : Value → Value → Value
  or_else a b = if to_boolean a then a else b

  -- `v and 1 or (v ~= nil and 0 or -1)`
  abbrev pub isdst_of : Value → Value
  isdst_of nil = integer minus_one
  isdst_of (boolean false) = integer (pos 0)
  isdst_of v = integer (pos 1)

  unfoldable pub posix_tm : Value → Outcome Value
  unfolding lua_table get_entry
  posix_tm legacytm = do
    sec ← index (lit "sec") legacytm
    minute ← index (lit "min") legacytm
    hour ← index (lit "hour") legacytm
    monthday ← index (lit "monthday") legacytm
    day ← index (lit "day") legacytm
    month ← index (lit "month") legacytm
    mon ← plus month minus_one
    year ← index (lit "year") legacytm
    tm_year ← plus year (negsuc 1899)
    weekday ← index (lit "weekday") legacytm
    yearday ← index (lit "yearday") legacytm
    is_dst ← index (lit "is_dst") legacytm
    gmtoff ← index (lit "gmtoff") legacytm
    zone ← index (lit "zone") legacytm
    ok (
        lua_table
          ((lit "tm_sec", sec)
            ∷ (lit "tm_min", minute)
            ∷ (lit "tm_hour", hour)
            ∷ (lit "tm_mday", or_else monthday day)
            ∷ (lit "tm_mon", mon)
            ∷ (lit "tm_year", tm_year)
            ∷ (lit "tm_wday", weekday)
            ∷ (lit "tm_yday", yearday)
            ∷ (lit "tm_isdst", isdst_of is_dst)
            ∷ (lit "tm_gmtoff", gmtoff)
            ∷ (lit "tm_zone", zone)
            ∷ [])
          empty)

  -- the fields of the fourth result, which is nil where nothing is left to sleep
  unfoldable pub unslept : List Value → Outcome (List Value)
  unslept results = do
    sec ← index (lit "tv_sec") (arg results 4)
    nsec ← index (lit "tv_nsec") (arg results 4)
    ok (arg results 1 ∷ arg results 2 ∷ arg results 3 ∷ sec ∷ nsec ∷ [])
