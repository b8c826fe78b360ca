-- ===== src/Sys/Msg.antt =====
-- ext/posix/sys/msg.c: System V message queues.
pub mod Transfer
pub mod Laws
pub mod Receive
pub mod Exchange
use luaposix.Base.{Bytes, List, [], cast_size, cast_uint, length, lit, pos, ℕ, ℤ, ◌+◌, ◌∷◌}
use luaposix.Helpers.Args.{arg, lua_l_checktype}
use luaposix.Helpers.Fields.{checkfieldnames, checkfieldtype, checkintegerfield, checkintfield}
use luaposix.Helpers.Results.{typed_table}
use luaposix.Lua.{Args, Call, Host, LuaType, Outcome, Value, integer, ok, ttable}
use luaposix.Lua.Checks.{◌>>=◌, ◌>>◌}

-- the fields of struct msqid_ds that the bindings read or write
pub record Msqid : Type 0 where
  pub msg_qnum : ℕ
  pub msg_qbytes : ℕ
  pub msg_lspid : ℤ
  pub msg_lrpid : ℤ
  pub msg_stime : ℤ
  pub msg_rtime : ℤ
  pub msg_ctime : ℤ
  pub uid : ℕ
  pub gid : ℕ
  pub cuid : ℕ
  pub cgid : ℕ
  pub mode : ℕ

pub record MsgCalls (W : Type 0) : Type 0 where
  -- msgctl with IPC_RMID, with IPC_SET and the three fields that it takes, and with IPC_STAT
  pub remove : ℤ → Call W ℤ
  pub set : ℤ → ℕ → ℕ → ℕ → ℤ → Call W ℤ
  pub stat : ℤ → Call W (ℤ × Msqid)
  pub msgget : ℤ → ℤ → Call W ℤ
  -- the type, the bytes that stand behind it in the block, and the number of bytes to send
  pub msgsnd : ℤ → ℤ → Bytes → ℕ → ℤ → Call W ℤ
  -- the number of bytes to accept; the result, the type, and the bytes put behind it
  pub msgrcv : ℤ → ℕ → ℤ → ℤ → Call W (ℤ × ℤ × Bytes)
  -- what becomes of the process when this many bytes are written behind the end of a block
  pub overrun : ℕ → Call W (Unit {0})
  pub ipc_rmid : ℤ
  pub ipc_set : ℤ
  pub ipc_stat : ℤ

-- pushmsqid: a struct of the system is never NULL here
unfoldable pub pushmsqid : Msqid → Value
unfolding typed_table
pushmsqid m = typed_table (lit "PosixMsqid") (
    (lit "msg_qnum", integer (pos m.msg_qnum))
    ∷ (lit "msg_qbytes", integer (pos m.msg_qbytes))
    ∷ (lit "msg_lspid", integer m.msg_lspid)
    ∷ (lit "msg_lrpid", integer m.msg_lrpid)
    ∷ (lit "msg_stime", integer m.msg_stime)
    ∷ (lit "msg_rtime", integer m.msg_rtime)
    ∷ (lit "msg_ctime", integer m.msg_ctime)
    ∷ (
      lit "msg_perm",
      typed_table [] (
          (lit "uid", integer (pos m.uid))
          ∷ (lit "gid", integer (pos m.gid))
          ∷ (lit "cuid", integer (pos m.cuid))
          ∷ (lit "cgid", integer (pos m.cgid))
          ∷ (lit "mode", integer (pos m.mode))
          ∷ []),
    )
    ∷ [])

abbrev pub msqid_fields : List Bytes
msqid_fields = lit "msg_qbytes" ∷ lit "msg_perm" ∷ []

abbrev pub ipcperm_fields : List Bytes
ipcperm_fields = lit "uid" ∷ lit "gid" ∷ lit "mode" ∷ []

module _ ⦃lua : Host⦄ where
  -- msg_qbytes, uid, gid and mode; the fields of msg_perm are diagnosed at the index of that table,
  -- which is the top of the stack
  unfoldable pub tomsqid : Args → ℕ → Outcome (ℕ × ℕ × ℕ × ℤ)
  unfolding lua_l_checktype checkintegerfield checkintfield checkfieldtype checkfieldnames
  tomsqid args index = do
    lua_l_checktype args index LuaType.ttable
    let t = arg args index
    qbytes ← checkintegerfield t index (lit "msg_qbytes")
    perm ← checkfieldtype t index (lit "msg_perm") LuaType.ttable (lit "table")
    let subindex = length args + 1
    uid ← checkintegerfield perm subindex (lit "uid")
    gid ← checkintegerfield perm subindex (lit "gid")
    mode ← checkintfield perm subindex (lit "mode")
    checkfieldnames t index msqid_fields
    checkfieldnames perm subindex ipcperm_fields
    ok (cast_size qbytes, cast_uint uid, cast_uint gid, mode)
