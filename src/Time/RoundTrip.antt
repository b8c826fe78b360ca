-- ===== src/Time/RoundTrip.antt =====
-- ext/posix/time.c: times that are pushed as tables and read back.
use luaposix.Base.{Bytes, InInt, Option, cast_int_id, none, refl, some, ◌∷◌, ◌≡◌}
use luaposix.Lua.{Args, Host, ok}
use luaposix.Time.Structs.{Timespec, Tm, pushtimespec, pushtm, totimespec, totm}

-- every field fits the int that the table is read into
pub record IsInts (t : Tm) : Type 0 where
  pub sec : InInt t.tm_sec
  pub minute : InInt t.tm_min
  pub hour : InInt t.tm_hour
  pub mday : InInt t.tm_mday
  pub mon : InInt t.tm_mon
  pub year : InInt t.tm_year
  pub wday : InInt t.tm_wday
  pub yday : InInt t.tm_yday
  pub isdst : InInt t.tm_isdst
  pub gmtoff : InInt t.tm_gmtoff

module _ ⦃lua : Host⦄ where
  -- A timespec, whatever its fields, is read back from its table.
  pub timespec_round_trip :
      (ts : Timespec) (rest : Args) → totimespec (pushtimespec ts ∷ rest) 1 ≡ ok ts
  unfolding totimespec pushtimespec
  timespec_round_trip ts rest = refl

  read_zone :
      (t : Tm) (z : Option Bytes) (rest : Args)
      → IsInts t
      → totm (pushtm (record t { tm_zone = z }) ∷ rest) 1 ≡ ok (record t { tm_zone = z })
  unfolding totm pushtm
  read_zone t none rest h = rw (
    cast_int_id t.tm_sec h.sec,
    cast_int_id t.tm_min h.minute,
    cast_int_id t.tm_hour h.hour,
    cast_int_id t.tm_mday h.mday,
    cast_int_id t.tm_mon h.mon,
    cast_int_id t.tm_year h.year,
    cast_int_id t.tm_wday h.wday,
    cast_int_id t.tm_yday h.yday,
    cast_int_id t.tm_isdst h.isdst,
    cast_int_id t.tm_gmtoff h.gmtoff,
  )
  read_zone t (some z) rest h = rw (
    cast_int_id t.tm_sec h.sec,
    cast_int_id t.tm_min h.minute,
    cast_int_id t.tm_hour h.hour,
    cast_int_id t.tm_mday h.mday,
    cast_int_id t.tm_mon h.mon,
    cast_int_id t.tm_year h.year,
    cast_int_id t.tm_wday h.wday,
    cast_int_id t.tm_yday h.yday,
    cast_int_id t.tm_isdst h.isdst,
    cast_int_id t.tm_gmtoff h.gmtoff,
  )

  -- A broken-down time whose fields fit an int is read back from its table, the zone included.
  pub tm_round_trip : (t : Tm) (rest : Args) → IsInts t → totm (pushtm t ∷ rest) 1 ≡ ok t
  tm_round_trip t rest h = read_zone t t.tm_zone rest h
