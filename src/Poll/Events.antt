-- ===== src/Poll/Events.antt =====
-- ext/posix/poll.c: event masks to and from tables of booleans. The bits are those of <poll.h>.
use luaposix.Base.{Bytes, List, [], bit_and, bit_or, if◌then◌else◌, lit, map, not, ℕ, ◌==◌, ◌∷◌}
use luaposix.Lua.{Table, Value, boolean, get_field, set_field, to_boolean}

abbrev pub poll_event_map : List (ℕ × Bytes)
poll_event_map =
    (0x001, lit "IN")
    ∷ (0x002, lit "PRI")
    ∷ (0x004, lit "OUT")
    ∷ (0x008, lit "ERR")
    ∷ (0x010, lit "HUP")
    ∷ (0x020, lit "NVAL")
    ∷ []

-- the loop of poll_events_from_table
unfoldable pub collect_events : List (ℕ × Bytes) → Value → ℕ → ℕ
unfolding get_field
collect_events [] t events = events
collect_events ((bit, name) ∷ map) t events =
    collect_events map t (if to_boolean (get_field name t) then bit_or events bit else events)

unfoldable pub poll_events_from_table : Value → ℕ
unfolding collect_events
poll_events_from_table t = collect_events poll_event_map t 0

-- the loop of poll_events_to_table
unfoldable pub spread_events : List (ℕ × Bytes) → ℕ → Table → Table
unfolding set_field
spread_events [] events t = t
spread_events ((bit, name) ∷ map) events t =
    spread_events map events (set_field name (boolean (not (bit_and events bit == 0))) t)

unfoldable pub poll_events_to_table : ℕ → Table → Table
unfolding spread_events
poll_events_to_table events t = spread_events poll_event_map events t
