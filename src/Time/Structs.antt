-- ===== src/Time/Structs.antt =====
-- ext/posix/time.c: struct timespec and struct tm, to and from tables; with tm_gmtoff and tm_zone.
use luaposix.Base.{Bytes, List, Option, [], lit, none, pos, some, ℕ, ℤ, ◌∷◌}
use luaposix.Helpers.Args.{arg, lua_l_checktype}
use luaposix.Helpers.Fields.{checkfieldnames, optintegerfield, optintfield, optstringfield}
use luaposix.Helpers.Results.{typed_table}
use luaposix.Lua.{Args, Host, LuaType, Outcome, Value, integer, ok, string}
use luaposix.Lua.Checks.{◌>>=◌, ◌>>◌}

pub record Timespec : Type 0 where
  pub tv_sec : ℤ
  pub tv_nsec : ℤ

-- `none` as the zone is NULL
pub record Tm : Type 0 where
  pub tm_sec : ℤ
  pub tm_min : ℤ
  pub tm_hour : ℤ
  pub tm_mday : ℤ
  pub tm_mon : ℤ
  pub tm_year : ℤ
  pub tm_wday : ℤ
  pub tm_yday : ℤ
  pub tm_isdst : ℤ
  pub tm_gmtoff : ℤ
  pub tm_zone : Option Bytes

abbrev pub timespec_fields : List Bytes
timespec_fields = lit "tv_sec" ∷ lit "tv_nsec" ∷ []

abbrev pub tm_fields : List Bytes
tm_fields =
    lit "tm_sec"
    ∷ lit "tm_min"
    ∷ lit "tm_hour"
    ∷ lit "tm_mday"
    ∷ lit "tm_mon"
    ∷ lit "tm_year"
    ∷ lit "tm_wday"
    ∷ lit "tm_yday"
    ∷ lit "tm_isdst"
    ∷ lit "tm_gmtoff"
    ∷ lit "tm_zone"
    ∷ []

unfoldable pub pushtimespec : Timespec → Value
unfolding typed_table
pushtimespec ts =
    typed_table (lit "PosixTimespec")
      ((lit "tv_sec", integer ts.tv_sec) ∷ (lit "tv_nsec", integer ts.tv_nsec) ∷ [])

-- setstringfield: NULL sets no field
abbrev pub zone_field : Option Bytes → List (Bytes × Value)
zone_field none = []
zone_field (some zone) = (lit "tm_zone", string zone) ∷ []

unfoldable pub pushtm : Tm → Value
unfolding typed_table
pushtm t = typed_table (lit "PosixTm") (
    (lit "tm_sec", integer t.tm_sec)
    ∷ (lit "tm_min", integer t.tm_min)
    ∷ (lit "tm_hour", integer t.tm_hour)
    ∷ (lit "tm_mday", integer t.tm_mday)
    ∷ (lit "tm_mon", integer t.tm_mon)
    ∷ (lit "tm_year", integer t.tm_year)
    ∷ (lit "tm_wday", integer t.tm_wday)
    ∷ (lit "tm_yday", integer t.tm_yday)
    ∷ (lit "tm_isdst", integer t.tm_isdst)
    ∷ (lit "tm_gmtoff", integer t.tm_gmtoff)
    ∷ zone_field t.tm_zone)

module _ ⦃lua : Host⦄ where
  unfoldable pub totimespec : Args → ℕ → Outcome Timespec
  unfolding lua_l_checktype optintegerfield checkfieldnames
  totimespec args index = do
    lua_l_checktype args index LuaType.ttable
    let t = arg args index
    sec ← optintegerfield t index (lit "tv_sec") (pos 0)
    nsec ← optintegerfield t index (lit "tv_nsec") (pos 0)
    checkfieldnames t index timespec_fields
    ok (record { tv_sec = sec; tv_nsec = nsec })

  unfoldable pub totm : Args → ℕ → Outcome Tm
  unfolding lua_l_checktype optintfield optstringfield checkfieldnames
  totm args index = do
    lua_l_checktype args index LuaType.ttable
    let t = arg args index
    sec ← optintfield t index (lit "tm_sec") (pos 0)
    minute ← optintfield t index (lit "tm_min") (pos 0)
    hour ← optintfield t index (lit "tm_hour") (pos 0)
    mday ← optintfield t index (lit "tm_mday") (pos 0)
    mon ← optintfield t index (lit "tm_mon") (pos 0)
    year ← optintfield t index (lit "tm_year") (pos 0)
    wday ← optintfield t index (lit "tm_wday") (pos 0)
    yday ← optintfield t index (lit "tm_yday") (pos 0)
    isdst ← optintfield t index (lit "tm_isdst") (pos 0)
    gmtoff ← optintfield t index (lit "tm_gmtoff") (pos 0)
    zone ← optstringfield t index (lit "tm_zone") none
    checkfieldnames t index tm_fields
    ok (record {
      tm_sec = sec;
      tm_min = minute;
      tm_hour = hour;
      tm_mday = mday;
      tm_mon = mon;
      tm_year = year;
      tm_wday = wday;
      tm_yday = yday;
      tm_isdst = isdst;
      tm_gmtoff = gmtoff;
      tm_zone = zone;
    })
