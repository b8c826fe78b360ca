-- ===== src/Poll/Laws.antt =====
-- ext/posix/poll.c: the room for structs, the tables of events, and the arguments of rpoll.
use luaposix.Base.{
  ==_iff, Bool, Bytes, Every, List, [], ap, arith, bit_and, done, length, lit, not, refl, suc, true,
  zero, ℕ, ℤ, ◌&&◌, ◌++◌, ◌<◌, ◌==◌, ◌∷◌, ◌≡◌, ◌≤◌, ◌▹◌,
}
use luaposix.Helpers.Args.{lua_l_checktype}
use luaposix.Helpers.Fields.{table_entries}
use luaposix.Lua.{
  Args, Host, LuaType, Machine, Table, Value, arg_error, boolean, empty, err, get_entry-set_field,
  get_field, integer, nil, ok, table,
}
use luaposix.Lua.Checks.{>>=-eq-ok}
use luaposix.Poll.Bindings.{PollCalls, fd_list_room, p_rpoll}
use luaposix.Poll.Events.{poll_event_map, poll_events_from_table, poll_events_to_table}
use luaposix.Poll.Tables.{
  check_entries, check_entry, poll_fd_list_check_table, poll_fd_list_from_table, report,
}

check_entries-length :
    (index : ℕ) (es : List (Value × Value)) (n : ℕ) → check_entries index es ≡ ok n → n ≡ length es
unfolding check_entries
check_entries-length index [] n h = ground arith
check_entries-length index ((k, v) ∷ es) n h =
    let (u, a, b) = >>=-eq-ok (check_entry index k v) _ h in
    let (m, c, d) = >>=-eq-ok (check_entries index es) _ b in
    ground (arith, check_entries-length index es m c)

length-fd_list :
    ⦃lua : Host⦄ → (es : List (Value × Value)) → length (poll_fd_list_from_table es) ≡ length es
unfolding poll_fd_list_from_table
length-fd_list [] = refl
length-fd_list ((k, v) ∷ es) = ap suc (length-fd_list es)

-- Where the table passes its check, the number that is handed to poll is that of the structs that
-- are filled in, and the array has room for all of them.
pub fd_list_in_bounds :
    ⦃lua : Host⦄
    → (t : Value) (rest : Args) (n : ℕ) → poll_fd_list_check_table (t ∷ rest) 1 ≡ ok n
    → (n ≡ length (poll_fd_list_from_table (table_entries t)))
      × (length (poll_fd_list_from_table (table_entries t)) ≤ fd_list_room n)
unfolding poll_fd_list_check_table
fd_list_in_bounds t rest n h =
    let (u, a, b) = >>=-eq-ok (lua_l_checktype (t ∷ rest) 1 LuaType.ttable) _ h in
    ground (arith, check_entries-length 1 (table_entries t) n b, length-fd_list (table_entries t))

-- whether a mask of events comes back from its table, and whether all masks below a bound do
abbrev comes_back : ℕ → Bool
comes_back e = poll_events_from_table (table [] (poll_events_to_table e empty)) == e

masks_below : ℕ → Bool
masks_below zero = true
masks_below (suc e) = comes_back e && masks_below e

comes_back_below : (bound e : ℕ) → masks_below bound ≡ true → e < bound → comes_back e ≡ true
unfolding masks_below
comes_back_below zero e all below = absurd (omega arith)
comes_back_below (suc bound) e all below = ground (arith, comes_back_below bound e)

six_bits : masks_below 64 ≡ true
unfolding masks_below poll_events_from_table poll_events_to_table
six_bits = refl

-- A mask of the six events, written to a table and read back, is the same mask.
pub mask_round_trip :
    (e : ℕ) → e < 64 → poll_events_from_table (table [] (poll_events_to_table e empty)) ≡ e
mask_round_trip e h = (==_iff _ e).0 (comes_back_below 64 e six_bits h)

-- For every entry the system's answer is put into `revents`, six booleans, one for each bit of the
-- mask, also where revents held other fields before; `events` stays as it was.
pub report_flags :
    (e : ℕ) (type : Bytes) (t : Table)
    → Every
        (λ (p : ℕ × Bytes).
          get_field p.1 (get_field (lit "revents") (report e (table type t)))
          ≡ boolean (not (bit_and e p.0 == 0)))
        poll_event_map
      × (get_field (lit "events") (report e (table type t))
          ≡ get_field (lit "events") (table type t))
unfolding report get_field
report_flags e type t = (
  (simp get_entry-set_field)
      ▹ (simp get_entry-set_field)
      ▹ (simp get_entry-set_field)
      ▹ (simp get_entry-set_field)
      ▹ (simp get_entry-set_field)
      ▹ (simp get_entry-set_field)
      ▹ done,
  simp get_entry-set_field,
)

-- Without a timeout, or with nil for it, rpoll raises an error, and nothing is polled.
pub rpoll_needs_timeout :
    ⦃lua : Host⦄
    → {W : Type 0} (os : PollCalls W) (fd : ℤ) (w : Machine W)
    → (p_rpoll os (integer fd ∷ []) w ≡ (
      err (arg_error 2 (lit "integer" ++ (lit " expected, got " ++ lua.typename LuaType.tnone))),
      w,
    ))
      × (p_rpoll os (integer fd ∷ nil ∷ []) w ≡ (
        err (arg_error 2 (lit "integer" ++ (lit " expected, got " ++ lua.typename LuaType.tnil))),
        w,
      ))
unfolding p_rpoll
rpoll_needs_timeout os fd w = (refl, refl)
