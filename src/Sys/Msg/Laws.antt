-- ===== src/Sys/Msg/Laws.antt =====
-- ext/posix/sys/msg.c: the block of Pmsgsnd, and the sizes and tables that are out of range.
use luaposix.Base.{
  Bytes, List, [], arith, cast_size, eq_ℤ, if◌then◌else◌, length, lit, minus_one, none, pos, refl,
  some, ℕ, ℤ, ◌+◌, ◌-◌, ◌<◌, ◌^◌, ◌∷◌, ◌≡◌,
}
use luaposix.Helpers.Args.{checkint, checkinteger, checknargs, checkstring, optint}
use luaposix.Helpers.Results.{pusherror}
use luaposix.Lua.{Args, Host, Value, arg_error, err, integer, pure}
use luaposix.Memory.{Allocator, is_null}
use luaposix.Memory.Balance.{
  Accounts, Balanced, Balanced-block, Balanced-check, Balanced-if, Balanced-pure,
  Balanced-pusherror, Quiet,
}
use luaposix.Sys.Msg.{MsgCalls, Msqid, pushmsqid, tomsqid}
use luaposix.Sys.Msg.Transfer.{p_msgsnd, send_block, sizeof_long, text_length}

module _ {W : Type 0} (live : W → List (ℕ × ℕ)) ⦃lua : Host⦄ (os : MsgCalls W) (mem : Allocator W)
    (law : Accounts live mem) where
  send_block-Balanced :
      (id ty : ℤ) (text : Bytes) (flags : ℤ)
      → Quiet live (os.msgsnd id ty text (sizeof_long + length text) flags)
      → Balanced live (send_block os mem id ty text flags)
  unfolding send_block
  send_block-Balanced id ty text flags quiet =
      let size = sizeof_long + length text in
      Balanced-block live mem law size (os.msgsnd id ty text size flags)
        (pusherror (some (lit "lalloc")))
        (λ r. if eq_ℤ r minus_one then pusherror none else pure (integer r ∷ [])) is_null quiet
        (Balanced-pusherror live (some (lit "lalloc")))
        (λ r.
          Balanced-if live (eq_ℤ r minus_one) (pusherror none) (pure (integer r ∷ []))
            (Balanced-pusherror live none) (Balanced-pure live _))
        (λ p. refl)

  -- The blocks that are out after a call of `msgsnd` are those that were out before, however it
  -- ends, where the allocator keeps its ledger and the system's msgsnd leaves it alone.
  pub p_msgsnd-Balanced :
      (args : Args)
      → ((id ty : ℤ) (text : Bytes) (n : ℕ) (flags : ℤ) → Quiet live (os.msgsnd id ty text n flags))
      → Balanced live (p_msgsnd os mem args)
  unfolding p_msgsnd
  p_msgsnd-Balanced args quiet = Balanced-check live (checkint args 1) _ λ id.
      Balanced-check live (checkinteger args 2) _ λ ty.
        Balanced-check live (checkstring args 3) _ λ text.
          Balanced-check live (optint args 4 (pos 0)) _ λ flags.
            Balanced-check live (checknargs args 4) _
              λ u. send_block-Balanced id ty text flags (quiet _ _ _ _ _)

-- A message of fewer than 8 bytes, which another program may send, gives a text length of nearly
-- 2^64, above every block that there can be.
pub short_message_overruns :
    (res : ℕ) → res < sizeof_long → text_length (pos res) ≡ 2 ^ 64 - sizeof_long + res
unfolding cast_size
short_message_overruns res h = ground arith

-- The table that IPC_STAT returns is refused by the check of IPC_SET, for its field msg_qnum.
pub stat_then_set_refused :
    ⦃lua : Host⦄
    → (a b : Value) (m : Msqid)
    → tomsqid (a ∷ b ∷ pushmsqid m ∷ []) 3 ≡ err (arg_error 3 (lit "invalid field name 'msg_qnum'"))
unfolding tomsqid pushmsqid
stat_then_set_refused a b m = refl
