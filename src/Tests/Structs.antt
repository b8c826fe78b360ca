-- ===== src/Tests/Structs.antt =====
-- The theorems on addresses, polls and times, each at one value.
use luaposix.Base.{[], arith, length, lit, negsuc, pos, refl, replicate, some, ◌++◌, ◌∷◌, ◌≡◌, ◌≤◌}
use luaposix.Helpers.Fields.{table_entries}
use luaposix.Lua.{Table, empty, entries, entry, integer, ok, string, table}
use luaposix.Poll.Bindings.{fd_list_room}
use luaposix.Poll.Laws.{fd_list_in_bounds}
use luaposix.Poll.Tables.{poll_fd_list_check_table, poll_fd_list_from_table}
use luaposix.Sys.Socket.{SockAddr, unix}
use luaposix.Sys.Socket.Address.{pushsockaddrinfo, sockaddr_from_lua}
use luaposix.Sys.Socket.RoundTrip.{Fits, address_round_trip}
use luaposix.Tests.Fixtures.{linux, linux-Distinct, lua54}
use luaposix.Time.RoundTrip.{IsInts, tm_round_trip}
use luaposix.Time.Structs.{Tm, pushtm, totm}

-- the path "/tmp/s" in its array
abbrev local : SockAddr
local = unix (lit "/tmp/s" ++ replicate 102 0)

local-Fits : Fits linux local
local-Fits = (
  lit "/tmp/s",
  ground arith,
  (
    ground arith,
    (ground arith, (ground arith, (ground arith, (ground arith, (ground arith, tt))))),
  ),
  ground arith,
  refl,
)

address_round_trip_example :
    sockaddr_from_lua linux ⦃lua = lua54⦄ (pushsockaddrinfo linux (pos 1) local ∷ []) 1
    ≡ ok (some (local, 8))
address_round_trip_example = address_round_trip ⦃lua = lua54⦄ linux linux-Distinct local local-Fits

abbrev one_fd : Table
one_fd =
    entry (integer (pos 3)) (table [] (entry (string (lit "events")) (table [] empty) empty)) empty

fd_list_in_bounds_example :
    (1 ≡ length (poll_fd_list_from_table ⦃lua = lua54⦄ (table_entries (table [] one_fd))))
    × (length (poll_fd_list_from_table ⦃lua = lua54⦄ (table_entries (table [] one_fd)))
        ≤ fd_list_room 1)
unfolding poll_fd_list_check_table entries
fd_list_in_bounds_example = fd_list_in_bounds ⦃lua = lua54⦄ (table [] one_fd) [] 1 refl

abbrev noon : Tm
noon = record {
  tm_sec = pos 0;
  tm_min = pos 0;
  tm_hour = pos 12;
  tm_mday = pos 29;
  tm_mon = pos 1;
  tm_year = pos 124;
  tm_wday = pos 4;
  tm_yday = pos 59;
  tm_isdst = pos 0;
  tm_gmtoff = negsuc 3599;
  tm_zone = some (lit "CET");
}

noon-IsInts : IsInts noon
noon-IsInts = record {
  sec = omega arith;
  minute = omega arith;
  hour = omega arith;
  mday = omega arith;
  mon = omega arith;
  year = omega arith;
  wday = omega arith;
  yday = omega arith;
  isdst = omega arith;
  gmtoff = omega arith;
}

tm_round_trip_example : totm ⦃lua = lua54⦄ (pushtm noon ∷ []) 1 ≡ ok noon
tm_round_trip_example = tm_round_trip ⦃lua = lua54⦄ noon [] noon-IsInts
