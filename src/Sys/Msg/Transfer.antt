-- ===== src/Sys/Msg/Transfer.antt =====
-- ext/posix/sys/msg.c: the bindings. A long has 8 bytes.
use luaposix.Base.{
  Bytes, List, [], cast_int, cast_size, eq_ℤ, if◌then◌else◌, is_negative, length, lit, minus_one,
  negsuc, none, pos, some, take, ℕ, ℤ, ◌+◌, ◌-ℤ◌, ◌-◌, ◌∷◌,
}
use luaposix.Helpers.Args.{
  checkint, checkinteger, checknargs, checkstring, expectoptinteger, optint,
}
use luaposix.Helpers.Results.{pusherror, pushresult}
use luaposix.Lua.{Binding, Call, Exec, Host, Value, call, integer, lift, pure, string, ◌>>=◌, ◌>>◌}
use luaposix.Memory.{Allocator, allocate, is_null, release}
use luaposix.Sys.Msg.{MsgCalls, pushmsqid, tomsqid}

abbrev pub sizeof_long : ℕ
sizeof_long = 8

-- `res - sizeof (long)`, a size_t
abbrev pub text_length : ℤ → ℕ
text_length res = cast_size (res -ℤ pos sizeof_long)

-- msgrcv writes the type and then `res` bytes: how many of them lie behind a block of `size` bytes
abbrev pub excess : ℕ → ℤ → ℕ
excess size (pos res) = sizeof_long + res - size
excess size (negsuc n) = 0

module _ ⦃lua : Host⦄ {W : Type 0} (os : MsgCalls W) where
  unfoldable pub p_msgctl : Binding W
  unfolding ◌>>=◌ checkint checknargs tomsqid pushresult pusherror pushmsqid
  p_msgctl args = do
    id ← lift (checkint args 1)
    cmd ← lift (checkint args 2)
    if eq_ℤ cmd os.ipc_rmid
        then (do
          lift (checknargs args 2)
          r ← call (os.remove id)
          pushresult r (some (lit "msgctl")))
        else if eq_ℤ cmd os.ipc_set
        then (do
          lift (checknargs args 3)
          (qbytes, uid, gid, mode) ← lift (tomsqid args 3)
          r ← call (os.set id qbytes uid gid mode)
          pushresult r (some (lit "msgctl")))
        else if eq_ℤ cmd os.ipc_stat
        then (do
          lift (checknargs args 2)
          (r, msqid) ← call (os.stat id)
          if is_negative r then pusherror (some (lit "msgctl")) else pure (pushmsqid msqid ∷ []))
        else (do lift (checknargs args 3); pusherror (some (lit "unsupported cmd value")))

  unfoldable pub p_msgget : Binding W
  unfolding ◌>>=◌ checkinteger optint checknargs pushresult
  p_msgget args = do
    lift (checknargs args 2)
    key ← lift (checkinteger args 1)
    flags ← lift (optint args 2 (pos 0))
    r ← call (os.msgget (cast_int key) flags)
    pushresult r (some (lit "msgget"))

  -- from the allocation on: the block holds a long and the text, and its size is sent as msgsz, so
  -- that the 8 bytes behind the block are sent too
  unfoldable pub send_block : Allocator W → ℤ → ℤ → Bytes → ℤ → Exec W (List Value)
  unfolding ◌>>=◌ pusherror
  send_block mem msgid msgtype text msgflg = do
    let msgsz = sizeof_long + length text
    msg ← allocate mem msgsz
    if is_null msg then pusherror (some (lit "lalloc")) else do
      r ← call (os.msgsnd msgid msgtype text msgsz msgflg)
      release mem msg msgsz
      if eq_ℤ r minus_one then pusherror none else pure (integer r ∷ [])

  unfoldable pub p_msgsnd : Allocator W → Binding W
  p_msgsnd mem args = do
    msgid ← lift (checkint args 1)
    msgtype ← lift (checkinteger args 2)
    text ← lift (checkstring args 3)
    msgflg ← lift (optint args 4 (pos 0))
    lift (checknargs args 4)
    send_block mem msgid msgtype text msgflg

  -- msgrcv into a block that was allocated with msgsz bytes
  unfoldable pub fill_block : ℤ → ℕ → ℤ → ℤ → Call W (ℤ × ℤ × Bytes)
  fill_block msgid msgsz msgtyp msgflg w =
      let t = os.msgrcv msgid msgsz msgtyp msgflg w in
      (t.0, (os.overrun (excess msgsz (cast_int t.0.0)) t.1).1)

  unfoldable pub receive_block : Allocator W → ℤ → ℕ → ℤ → ℤ → Exec W (List Value)
  unfolding ◌>>=◌ pusherror
  receive_block mem msgid msgsz msgtyp msgflg = do
    msg ← allocate mem msgsz
    if is_null msg then pusherror (some (lit "lalloc")) else do
      (r, mtype, text) ← call (fill_block msgid msgsz msgtyp msgflg)
      let res = cast_int r
      release mem msg msgsz
      if eq_ℤ res minus_one
          then pusherror none
          else pure (integer mtype ∷ string (take (text_length res) text) ∷ [])

  unfoldable pub p_msgrcv : Allocator W → Binding W
  p_msgrcv mem args = do
    msgid ← lift (checkint args 1)
    msgsz ← lift (checkinteger args 2)
    msgtyp ← lift (expectoptinteger args 3 (pos 0) (lit "integer or nil"))
    msgflg ← lift (optint args 4 (pos 0))
    lift (checknargs args 4)
    receive_block mem msgid (cast_size msgsz) msgtyp msgflg
