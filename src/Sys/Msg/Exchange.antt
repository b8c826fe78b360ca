-- ===== src/Sys/Msg/Exchange.antt =====
-- ext/posix/sys/msg.c: a message that Pmsgsnd sends and Pmsgrcv takes.
use luaposix.Base.{Bytes, List, [], length, pos, ℕ, ℤ, ◌++◌, ◌+◌, ◌∷◌, ◌≡◌, ◌≤◌}
use luaposix.Lua.{Machine}
use luaposix.Memory.{Allocator}
use luaposix.Sys.Msg.{MsgCalls}

module _ {W : Type 0} (queued : W → ℤ → List (ℤ × Bytes)) (os : MsgCalls W)
    (mem : Allocator W) where
  -- what msgsnd(2) and msgrcv(2) say of the messages of a queue, the oldest first: bytes that the
  -- sender's block does not have are unknown, and a message that fits is given whole
  pub record Queues : Type 0 where
    pub sends :
        (id ty : ℤ) (text : Bytes) (size : ℕ) (flags : ℤ) (w : Machine W)
        → length text ≤ size
        → (os.msgsnd id ty text size flags w).0 ≡ pos 0
        → (junk : Bytes) × (length text + length junk ≡ size)
          × (queued (os.msgsnd id ty text size flags w).1.kernel id
              ≡ queued w.kernel id ++ ((ty, text ++ junk) ∷ []))
    pub receives :
        (id : ℤ) (n : ℕ) (flags ty : ℤ) (body : Bytes) (rest : List (ℤ × Bytes)) (w : Machine W)
        → queued w.kernel id ≡ (ty, body) ∷ rest
        → length body ≤ n
        → (os.msgrcv id n (pos 0) flags w).0 ≡ (pos (length body), ty, body)
    pub allocs :
        (id : ℤ) (n : ℕ) (w : Machine W) → queued (mem.alloc n w).1.kernel id ≡ queued w.kernel id
    pub frees :
        (id : ℤ) (p n : ℕ) (w : Machine W)
        → queued (mem.free p n w).1.kernel id ≡ queued w.kernel id
