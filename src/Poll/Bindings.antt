-- ===== src/Poll/Bindings.antt =====
-- ext/posix/poll.c: Ppoll and Prpoll. A call that changes its table returns the table too.
use luaposix.Base.{List, [], if◌then◌else◌, leb, ltb_ℤ, minus_one, none, pos, ℕ, ℤ, ◌∷◌}
use luaposix.Helpers.Args.{arg, checkint, checknargs, optint}
use luaposix.Helpers.Fields.{table_entries}
use luaposix.Helpers.Results.{pushresult}
use luaposix.Lua.{Args, Binding, Call, Exec, Host, Value, call, lift, pure, table, ◌>>=◌, ◌>>◌}
use luaposix.Poll.Tables.{
  PollFd, poll_fd_list_check_table, poll_fd_list_from_table, poll_fd_list_to_table,
}

pub record PollCalls (W : Type 0) : Type 0 where
  -- the structs with their count, and the timeout; the result, and the structs as they come back
  pub poll : List PollFd → ℕ → ℤ → Call W (ℤ × List PollFd)

abbrev pub static_fd_list : ℕ
static_fd_list = 16

-- how many structs the array has room for
abbrev pub fd_list_room : ℕ → ℕ
fd_list_room fd_num = if leb fd_num static_fd_list then static_fd_list else fd_num

module _ ⦃lua : Host⦄ {W : Type 0} (os : PollCalls W) where
  abbrev pub filled : ℤ → Value → List PollFd → Value
  filled r (table type t) fds =
      if ltb_ℤ (pos 0) r then table type (poll_fd_list_to_table t fds) else table type t
  filled r v fds = v

  unfoldable pub p_poll : Args → Exec W (List Value × Value)
  unfolding ◌>>=◌ poll_fd_list_check_table optint checknargs pushresult
  p_poll args = do
    fd_num ← lift (poll_fd_list_check_table args 1)
    timeout ← lift (optint args 2 minus_one)
    lift (checknargs args 2)
    let fds = poll_fd_list_from_table (table_entries (arg args 1))
    (r, fds') ← call (os.poll fds fd_num timeout)
    results ← pushresult r none
    pure (results, filled r (arg args 1) fds')

  unfoldable pub p_rpoll : Binding W
  unfolding ◌>>=◌ checkint checknargs pushresult
  p_rpoll args = do
    file ← lift (checkint args 1)
    timeout ← lift (checkint args 2)
    lift (checknargs args 2)
    (r, fds') ← call (os.poll (record { fd = file; events = 1; revents = 0 } ∷ []) 1 timeout)
    pushresult r none
