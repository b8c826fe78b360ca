-- ===== src/Sys/Socket/Balance.antt =====
-- ext/posix/sys/socket.c: Precv and Precvfrom, and the blocks that they take.
use luaposix.Base.{
  Bytes, List, [], cast_size, if◌then◌else◌, is_negative, lit, ltb, none, pos, pos_part, refl, some,
  take, ℕ, ℤ, ◌&&◌, ◌∷◌,
}
use luaposix.Helpers.Args.{checkint, checkinteger, checknargs}
use luaposix.Helpers.Results.{pusherror}
use luaposix.Lua.{Args, Exec, Host, Value, pure, string, write_errno}
use luaposix.Memory.{Allocator, is_null}
use luaposix.Memory.Balance.{
  Accounts, Balanced, Balanced-bind, Balanced-block, Balanced-check, Balanced-if, Balanced-pure,
  Balanced-pusherror, Balanced-write_errno, Quiet,
}
use luaposix.Sys.Socket.{Families, SockAddr}
use luaposix.Sys.Socket.Address.{pushsockaddrinfo}
use luaposix.Sys.Socket.Bindings.{SocketCalls, p_recv, p_recvfrom, recv_block, recvfrom_block}

module _ {W : Type 0} (live : W → List (ℕ × ℕ)) ⦃lua : Host⦄ (os : SocketCalls W)
    (mem : Allocator W) (law : Accounts live mem) where
  recv_block-Balanced :
      (fd : ℤ) (count : ℕ)
      → Quiet live (os.recv fd count)
      → Balanced live (recv_block os mem fd count)
  unfolding recv_block
  recv_block-Balanced fd count quiet =
      Balanced-bind live (write_errno (pos 0)) _ (Balanced-write_errno live (pos 0)) λ v.
        Balanced-block live mem law count (os.recv fd count) (pusherror (some (lit "lalloc")))
          (λ t.
            if is_negative t.0
            then pusherror none
            else pure (string (take (pos_part t.0) t.1) ∷ []))
          (λ b. is_null b && ltb 0 count) quiet (Balanced-pusherror live (some (lit "lalloc")))
          (λ t.
            Balanced-if live (is_negative t.0) (pusherror none)
              (pure (string (take (pos_part t.0) t.1) ∷ [])) (Balanced-pusherror live none)
              (Balanced-pure live _))
          (λ p. refl)

  -- The blocks that are out after a call of `recv` are those that were out before, however it
  -- ends, where the allocator keeps its ledger and the system's recv leaves it alone.
  pub p_recv-Balanced :
      (args : Args)
      → ((fd : ℤ) (n : ℕ) → Quiet live (os.recv fd n))
      → Balanced live (p_recv os mem args)
  unfolding p_recv
  p_recv-Balanced args quiet = Balanced-check live (checkint args 1) _ λ fd.
      Balanced-check live (checkinteger args 2) _ λ count.
        Balanced-check live (checknargs args 2) _
          λ u. recv_block-Balanced fd (cast_size count) (quiet fd (cast_size count))

  module _ (af : Families) where
    abbrev received : ℤ × Bytes × ℤ × SockAddr → Exec W (List Value)
    received t =
        if is_negative t.0
        then pusherror none
        else pure (string (take (pos_part t.0) t.1) ∷ pushsockaddrinfo af t.2 t.3 ∷ [])

    recvfrom_block-Balanced :
        (fd : ℤ) (count : ℕ)
        → Quiet live (os.recvfrom fd count)
        → Balanced live (recvfrom_block os af mem fd count)
    unfolding recvfrom_block
    recvfrom_block-Balanced fd count quiet =
        Balanced-bind live (write_errno (pos 0)) _ (Balanced-write_errno live (pos 0)) λ v.
          Balanced-block live mem law count (os.recvfrom fd count) (pusherror (some (lit "lalloc")))
            received (λ b. is_null b && ltb 0 count) quiet
            (Balanced-pusherror live (some (lit "lalloc")))
            (λ t.
              Balanced-if live (is_negative t.0) (pusherror none) (pure _)
                (Balanced-pusherror live none) (Balanced-pure live _))
            (λ p. refl)

    -- The blocks that are out after a call of `recvfrom` are those that were out before, however
    -- it ends, where the allocator keeps its ledger and the system's recvfrom leaves it alone.
    pub p_recvfrom-Balanced :
        (args : Args)
        → ((fd : ℤ) (n : ℕ) → Quiet live (os.recvfrom fd n))
        → Balanced live (p_recvfrom os af mem args)
    unfolding p_recvfrom
    p_recvfrom-Balanced args quiet = Balanced-check live (checkint args 1) _ λ fd.
        Balanced-check live (checkinteger args 2) _ λ count.
          Balanced-check live (checknargs args 2) _
            λ u. recvfrom_block-Balanced fd (cast_size count) (quiet fd (cast_size count))
