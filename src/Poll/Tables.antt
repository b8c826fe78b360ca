-- ===== src/Poll/Tables.antt =====
-- ext/posix/poll.c: the table of file descriptors. It is visited by lua_next three times, in the same
-- order, since no key is added or removed between.
use luaposix.Base.{Bool, Bytes, List, [], cast_int, false, lit, true, ℕ, ℤ, ◌+◌, ◌||◌, ◌∷◌}
use luaposix.Helpers.Args.{arg, argcheck, lua_l_checktype, tointeger}
use luaposix.Helpers.Fields.{table_entries}
use luaposix.Lua.{
  Args, Host, LuaType, Outcome, Table, Value, empty, entry, get_entry, get_field, int, nil, number,
  ok, set_field, table,
}
use luaposix.Lua.Checks.{◌>>=◌, ◌>>◌}
use luaposix.Poll.Events.{poll_events_from_table, poll_events_to_table}

pub record PollFd : Type 0 where
  pub fd : ℤ
  pub events : ℕ
  pub revents : ℕ

abbrev pub is_table : Value → Bool
is_table (table _ _) = true
is_table _ = false

-- lua_isinteger
abbrev pub is_integer : Value → Bool
is_integer (number (int n)) = true
is_integer _ = false

abbrev pub is_nil : Value → Bool
is_nil nil = true
is_nil _ = false

-- the body of the loop of poll_fd_list_check_table
unfoldable pub check_entry : ℕ → Value → Value → Outcome (Unit {0})
unfolding get_field
check_entry index key value = do
  argcheck (is_integer key) index (lit "contains non-integer key(s)")
  argcheck (is_table value) index (lit "contains non-table value(s)")
  argcheck (is_table (get_field (lit "events") value)) index (lit "contains invalid value table(s)")
  argcheck (is_nil (get_field (lit "revents") value) || is_table (get_field (lit "revents") value))
      index (lit "contains invalid value table(s)")

unfoldable pub check_entries : ℕ → List (Value × Value) → Outcome ℕ
unfolding check_entry
check_entries index [] = ok 0
check_entries index ((key, value) ∷ rest) = do
  check_entry index key value
  n ← check_entries index rest
  ok (n + 1)

module _ ⦃lua : Host⦄ where
  -- the number of entries
  unfoldable pub poll_fd_list_check_table : Args → ℕ → Outcome ℕ
  unfolding lua_l_checktype check_entries
  poll_fd_list_check_table args index = do
    lua_l_checktype args index LuaType.ttable
    check_entries index (table_entries (arg args index))

  -- one struct pollfd for each entry; a revents that the system has not written is 0
  unfoldable pub poll_fd_list_from_table : List (Value × Value) → List PollFd
  unfolding poll_events_from_table
  poll_fd_list_from_table [] = []
  poll_fd_list_from_table ((key, value) ∷ rest) =
      record {
        fd = cast_int (tointeger key);
        events = poll_events_from_table (get_field (lit "events") value);
        revents = 0;
      }
      ∷ poll_fd_list_from_table rest

-- `revents` of one value: a new table where there is none
unfoldable pub report : ℕ → Value → Value
unfolding poll_events_to_table
report revents (table type t) =
    let old : Table = elim (get_entry (lit "revents") t) [ table _ r ↦ r | _ ↦ empty ] in
    let old_type : Bytes = elim (get_entry (lit "revents") t) [ table type' r ↦ type' | _ ↦ [] ] in
    table type (set_field (lit "revents") (table old_type (poll_events_to_table revents old)) t)
report revents v = v

-- the entries, with what the system put in the list of structs
unfoldable pub poll_fd_list_to_table : Table → List PollFd → Table
unfolding report
poll_fd_list_to_table empty fds = empty
poll_fd_list_to_table (entry key value t) [] = entry key value t
poll_fd_list_to_table (entry key value t) (p ∷ fds) =
    entry key (report p.revents value) (poll_fd_list_to_table t fds)
