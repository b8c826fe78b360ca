-- ===== src/Tests/Messages.antt =====
-- A message that is sent and received, ext/posix/sys/msg.c, with a small kernel that has one queue.
use luaposix.Base.{
  Bytes, List, [], if◌then◌else◌, length, lit, ltb, minus_one, pos, replicate, some, ℕ, ℤ, ◌++◌,
  ◌+◌, ◌-◌, ◌∷◌,
}
use luaposix.Lua.{Machine}
use luaposix.Memory.{Allocator}
use luaposix.Sys.Msg.{MsgCalls}
use luaposix.Tests.Fixtures.{some_queue}

-- the messages, the oldest first, and how many bytes were written behind a block
abbrev Mail : Type 0
Mail = List (ℤ × Bytes) × ℕ

-- a sender's block has none of the 8 last bytes that it sends
abbrev body_of : Bytes → ℕ → Bytes
body_of text size = text ++ replicate (size - length text) 0

abbrev oldest : ℕ → Machine Mail → List (ℤ × Bytes) → (ℤ × ℤ × Bytes) × Machine Mail
oldest n m [] = ((minus_one, pos 0, []), record m { errno = pos 42 })
oldest n m ((ty, body) ∷ rest) =
    if ltb n (length body)
    then ((minus_one, pos 0, []), record m { errno = pos 7 })
    else ((pos (length body), ty, body), record m { kernel = (rest, m.kernel.1) })

abbrev post : MsgCalls Mail
post = record {
  remove = λ id m. (pos 0, m);
  set = λ id uid gid mode qbytes m. (pos 0, m);
  stat = λ id m. ((minus_one, some_queue), m);
  msgget = λ key flags m. (pos 0, m);
  msgsnd = λ id ty text n flags m.
      (pos 0, record m { kernel = (m.kernel.0 ++ ((ty, body_of text n) ∷ []), m.kernel.1) });
  msgrcv = λ id n typ flags m. oldest n m m.kernel.0;
  overrun = λ n m. (tt, record m { kernel = (m.kernel.0, m.kernel.1 + n) });
  ipc_rmid = pos 0;
  ipc_set = pos 1;
  ipc_stat = pos 2;
}

abbrev one_block : Allocator Mail
one_block = record { alloc = λ n m. (some 1, m); free = λ p n m. (tt, m) }

abbrev in_queue : Mail → ℤ → List (ℤ × Bytes)
in_queue k id = k.0

abbrev no_mail : Machine Mail
no_mail = record { kernel = ([], 0); errno = pos 0 }

abbrev greeting : Bytes
greeting = lit "hi"

abbrev after_send : Machine Mail
after_send = record no_mail { kernel = ((pos 3, body_of greeting 10) ∷ [], 0) }
