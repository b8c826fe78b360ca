-- ===== src/Sys/Msg/Receive.antt =====
-- ext/posix/sys/msg.c: Pmsgrcv, and the block that it takes.
use luaposix.Base.{
  Bytes, List, [], cast_int, cast_size, eq_ℤ, if◌then◌else◌, lit, minus_one, none, pos, refl, some,
  take, ℕ, ℤ, ◌∙◌, ◌∷◌,
}
use luaposix.Helpers.Args.{checkint, checkinteger, checknargs, expectoptinteger, optint}
use luaposix.Helpers.Results.{pusherror}
use luaposix.Lua.{Args, Exec, Host, Value, integer, pure, string}
use luaposix.Memory.{Allocator, is_null}
use luaposix.Memory.Balance.{
  Accounts, Balanced, Balanced-block, Balanced-check, Balanced-if, Balanced-pure,
  Balanced-pusherror, Quiet,
}
use luaposix.Sys.Msg.{MsgCalls}
use luaposix.Sys.Msg.Transfer.{fill_block, p_msgrcv, receive_block, text_length}

module _ {W : Type 0} (live : W → List (ℕ × ℕ)) ⦃lua : Host⦄ (os : MsgCalls W) (mem : Allocator W)
    (law : Accounts live mem) where
  abbrev received : ℤ × ℤ × Bytes → Exec W (List Value)
  received t =
      if eq_ℤ (cast_int t.0) minus_one
      then pusherror none
      else pure (integer t.1 ∷ string (take (text_length (cast_int t.0)) t.2) ∷ [])

  fill_block-Quiet :
      (id : ℤ) (size : ℕ) (typ flags : ℤ)
      → Quiet live (os.msgrcv id size typ flags)
      → ((n : ℕ) → Quiet live (os.overrun n))
      → Quiet live (fill_block os id size typ flags)
  unfolding fill_block
  fill_block-Quiet id size typ flags quiet over = record {
    same = λ w. (over _).same (os.msgrcv id size typ flags w).1 ∙ quiet.same w;
  }

  receive_block-Balanced :
      (id : ℤ) (size : ℕ) (typ flags : ℤ)
      → Quiet live (os.msgrcv id size typ flags)
      → ((n : ℕ) → Quiet live (os.overrun n))
      → Balanced live (receive_block os mem id size typ flags)
  unfolding receive_block
  receive_block-Balanced id size typ flags quiet over =
      Balanced-block live mem law size (fill_block os id size typ flags)
        (pusherror (some (lit "lalloc"))) received is_null
        (fill_block-Quiet id size typ flags quiet over)
        (Balanced-pusherror live (some (lit "lalloc")))
        (λ t.
          Balanced-if live (eq_ℤ (cast_int t.0) minus_one) (pusherror none) (pure _)
            (Balanced-pusherror live none) (Balanced-pure live _))
        (λ p. refl)

  -- The blocks that are out after a call of `msgrcv` are those that were out before, however it
  -- ends, where the allocator keeps its ledger and neither the system's msgrcv nor what is written behind a
  -- block changes it.
  pub p_msgrcv-Balanced :
      (args : Args)
      → ((id : ℤ) (n : ℕ) (typ flags : ℤ) → Quiet live (os.msgrcv id n typ flags))
      → ((n : ℕ) → Quiet live (os.overrun n))
      → Balanced live (p_msgrcv os mem args)
  unfolding p_msgrcv
  p_msgrcv-Balanced args quiet over = Balanced-check live (checkint args 1) _ λ id.
      Balanced-check live (checkinteger args 2) _ λ size.
        Balanced-check live (expectoptinteger args 3 (pos 0) (lit "integer or nil")) _ λ typ.
          Balanced-check live (optint args 4 (pos 0)) _ λ flags.
            Balanced-check live (checknargs args 4) _
              λ u. receive_block-Balanced id (cast_size size) typ flags (quiet _ _ _ _) over
