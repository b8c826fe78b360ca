-- ===== src/Posix/LegacyTime/Laws.antt =====
-- lib/posix/deprecated.lua: a broken-down time in the older form and back.
use luaposix.Base.{
  Bytes, InInt, Option, [], arith, cast_int_id, cast_long, false, is_negative, lit, ltb_ℤ,
  minus_one, negsuc, none, pos, refl, some, suc, true, zero, ℕ, ℤ, ◌+ℤ◌, ◌<◌, ◌∷◌, ◌≡◌,
}
use luaposix.Lua.{Args, Host, Value, boolean, empty, integer, nil, ok, string}
use luaposix.Posix.LegacyTime.{Arithmetic, dst_flag, legacy_tm, lua_table, posix_tm}
use luaposix.Time.RoundTrip.{IsInts}
use luaposix.Time.Structs.{Tm, pushtm, totm}

-- the sign of tm_isdst, which is all that the older form keeps
abbrev pub sign_of : ℤ → ℤ
sign_of (pos zero) = pos 0
sign_of (pos (suc n)) = pos 1
sign_of (negsuc n) = minus_one

-- adding 1 or 1900 to an int, and taking it off again
there_and_back :
    (n : ℤ) (k : ℕ)
    → InInt n
    → suc k < 3000
    → cast_long (cast_long (n +ℤ pos (suc k)) +ℤ negsuc k) ≡ n
unfolding cast_long
there_and_back (pos n) k i h = ground arith
there_and_back (negsuc n) k i h = ground arith

abbrev flag_of : ℤ → Value
flag_of (pos zero) = boolean false
flag_of (pos (suc n)) = boolean true
flag_of (negsuc n) = nil

abbrev zone_of : Option Bytes → Value
zone_of none = nil
zone_of (some z) = string z

abbrev pub with_sign : Tm → Tm
with_sign t = record t { tm_isdst = sign_of t.tm_isdst }

abbrev pub older : Tm → Value
older t =
    lua_table
      ((lit "sec", integer t.tm_sec)
        ∷ (lit "min", integer t.tm_min)
        ∷ (lit "hour", integer t.tm_hour)
        ∷ (lit "monthday", integer t.tm_mday)
        ∷ (lit "day", integer t.tm_mday)
        ∷ (lit "month", integer (cast_long (t.tm_mon +ℤ pos 1)))
        ∷ (lit "year", integer (cast_long (t.tm_year +ℤ pos 1900)))
        ∷ (lit "weekday", integer t.tm_wday)
        ∷ (lit "yearday", integer t.tm_yday)
        ∷ (lit "is_dst", flag_of t.tm_isdst)
        ∷ (lit "gmtoff", integer t.tm_gmtoff)
        ∷ (lit "zone", zone_of t.tm_zone)
        ∷ [])
      empty

-- what PosixTm makes of it
abbrev pub newer : Tm → Value
newer t =
    lua_table
      ((lit "tm_sec", integer t.tm_sec)
        ∷ (lit "tm_min", integer t.tm_min)
        ∷ (lit "tm_hour", integer t.tm_hour)
        ∷ (lit "tm_mday", integer t.tm_mday)
        ∷ (lit "tm_mon", integer (cast_long (cast_long (t.tm_mon +ℤ pos 1) +ℤ minus_one)))
        ∷ (lit "tm_year", integer (cast_long (cast_long (t.tm_year +ℤ pos 1900) +ℤ negsuc 1899)))
        ∷ (lit "tm_wday", integer t.tm_wday)
        ∷ (lit "tm_yday", integer t.tm_yday)
        ∷ (lit "tm_isdst", integer (sign_of t.tm_isdst))
        ∷ (lit "tm_gmtoff", integer t.tm_gmtoff)
        ∷ (lit "tm_zone", zone_of t.tm_zone)
        ∷ [])
      empty

sign_of-InInt : (n : ℤ) → InInt (sign_of n)
sign_of-InInt (pos zero) = omega arith
sign_of-InInt (pos (suc n)) = omega arith
sign_of-InInt (negsuc n) = omega arith

module _ ⦃lua : Host⦄ (num : Arithmetic) where
  dst_flag-flag_of : (n : ℤ) → dst_flag num (ltb_ℤ (pos 0) n, is_negative n) ≡ flag_of n
  dst_flag-flag_of (pos zero) = refl
  dst_flag-flag_of (pos (suc n)) = ground arith
  dst_flag-flag_of (negsuc n) = ground arith

  legacy_at :
      (t : Tm) (z : Option Bytes)
      → legacy_tm num (pushtm (record t { tm_zone = z })) ≡ ok (older (record t { tm_zone = z }))
  unfolding legacy_tm pushtm
  legacy_at t none = rw (dst_flag-flag_of t.tm_isdst) refl
  legacy_at t (some z) = rw (dst_flag-flag_of t.tm_isdst) refl

  renamed :
      (t : Tm) (d : ℤ) (z : Option Bytes)
      → let t' = record t { tm_isdst = d; tm_zone = z } in posix_tm num (older t') ≡ ok (newer t')
  unfolding posix_tm lua_table
  renamed t (pos zero) none = refl
  renamed t (pos zero) (some z) = refl
  renamed t (pos (suc n)) none = refl
  renamed t (pos (suc n)) (some z) = refl
  renamed t (negsuc n) none = refl
  renamed t (negsuc n) (some z) = refl

  read_newer :
      (t : Tm) (z : Option Bytes) (rest : Args)
      → IsInts t
      → let t' = record t { tm_zone = z } in totm (newer t' ∷ rest) 1 ≡ ok (with_sign t')
  unfolding totm lua_table
  read_newer t none rest h = rw (
    cast_int_id t.tm_sec h.sec,
    cast_int_id t.tm_min h.minute,
    cast_int_id t.tm_hour h.hour,
    cast_int_id t.tm_mday h.mday,
    there_and_back t.tm_mon 0 h.mon (omega arith),
    cast_int_id t.tm_mon h.mon,
    there_and_back t.tm_year 1899 h.year (omega arith),
    cast_int_id t.tm_year h.year,
    cast_int_id t.tm_wday h.wday,
    cast_int_id t.tm_yday h.yday,
    cast_int_id (sign_of t.tm_isdst) (sign_of-InInt t.tm_isdst),
    cast_int_id t.tm_gmtoff h.gmtoff,
  )
  read_newer t (some z) rest h = rw (
    cast_int_id t.tm_sec h.sec,
    cast_int_id t.tm_min h.minute,
    cast_int_id t.tm_hour h.hour,
    cast_int_id t.tm_mday h.mday,
    there_and_back t.tm_mon 0 h.mon (omega arith),
    cast_int_id t.tm_mon h.mon,
    there_and_back t.tm_year 1899 h.year (omega arith),
    cast_int_id t.tm_year h.year,
    cast_int_id t.tm_wday h.wday,
    cast_int_id t.tm_yday h.yday,
    cast_int_id (sign_of t.tm_isdst) (sign_of-InInt t.tm_isdst),
    cast_int_id t.tm_gmtoff h.gmtoff,
  )

  -- A broken-down time in the older form is turned back into the time that it came from, but for
  -- tm_isdst, of which its sign is left.
  pub older_round_trip :
      (t : Tm) (rest : Args)
      → IsInts t
      → (legacy_tm num (pushtm t) ≡ ok (older t))
        × (posix_tm num (older t) ≡ ok (newer t))
        × (totm (newer t ∷ rest) 1 ≡ ok (with_sign t))
  older_round_trip t rest h =
      (legacy_at t t.tm_zone, renamed t t.tm_isdst t.tm_zone, read_newer t t.tm_zone rest h)
