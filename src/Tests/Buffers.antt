-- ===== src/Tests/Buffers.antt =====
-- The theorems on buffers and on blocks of memory, each at one call.
use luaposix.Base.{
  Bytes, [], arith, cast_int, lit, minus_one, none, pos, some, ◌++◌, ◌-◌, ◌^◌, ◌∷◌, ◌≡◌, ◌≢◌, ◌⊎◌,
}
use luaposix.Blocks.{Systems}
use luaposix.Helpers.Results.{pushresult}
use luaposix.Libgen.{LibgenCalls}
use luaposix.Lua.{call, integer, nil, ok, string, ◌>>=◌}
use luaposix.Stdlib.Templates.{TemplateCalls}
use luaposix.Sys.Msg.{MsgCalls}
use luaposix.Tests.Fixtures.{Ledger, calm_sockets, calm_unistd, idle, linux, lua54, some_queue}
use luaposix.Unistd.Buffers.{InBuffer, write_in_bounds, write_out_of_bounds}
use luaposix.Unistd.Transfer.{p_write}

abbrev hello : Bytes
hello = lit "hello"

write_in_bounds_example :
    let args = integer (pos 1) ∷ string hello ∷ integer (pos 3) ∷ integer (pos 1) ∷ [] in
    (InBuffer 5 (pos 3) (pos 1)
      × (p_write ⦃lua = lua54⦄ calm_unistd args idle
          ≡ (call (calm_unistd.write (cast_int (pos 1)) hello (pos 1) (pos 3)) >>= λ r.
                pushresult ⦃lua = lua54⦄ r none)
              idle))
    ⊎ ((pos 3 ≡ pos 0)
        × (p_write ⦃lua = lua54⦄ calm_unistd args idle ≡ (ok (integer (pos 0) ∷ []), idle)))
    ⊎ ((pos 3 ≢ pos 0)
        × (¬ InBuffer 5 (pos 3) (pos 1))
        × ((message : Bytes) × (p_write ⦃lua = lua54⦄ calm_unistd args idle ≡ (
          ok (nil ∷ string message ∷ integer (pos 22) ∷ []),
          record idle { errno = pos 22 },
        ))))
write_in_bounds_example =
    write_in_bounds ⦃lua = lua54⦄ calm_unistd (pos 1) (pos 3) (pos 1) hello idle (omega arith)
      (omega arith)

write_out_of_bounds_example :
    (p_write ⦃lua = lua54⦄ calm_unistd
        (integer (pos 1) ∷ string hello ∷ integer (pos 1) ∷ integer (pos (2 ^ 63 - 1)) ∷ [])
        idle
      ≡ (call (calm_unistd.write (cast_int (pos 1)) hello (pos (2 ^ 63 - 1)) (pos 1)) >>= λ r.
            pushresult ⦃lua = lua54⦄ r none)
          idle)
    × ¬ InBuffer 5 (pos 1) (pos (2 ^ 63 - 1))
write_out_of_bounds_example =
    write_out_of_bounds ⦃lua = lua54⦄ calm_unistd (pos 1) 1 (2 ^ 63 - 1) hello idle (omega arith)
      (omega arith) (omega arith) (omega arith) (omega arith)

-- a queue that always holds one message, of the type 1 and the text "hi"
abbrev queue : MsgCalls Ledger
queue = record {
  remove = λ id m. (pos 0, m);
  set = λ id uid gid mode qbytes m. (pos 0, m);
  stat = λ id m. ((minus_one, some_queue), m);
  msgget = λ key flags m. (pos 0, m);
  msgsnd = λ id ty text n flags m. (pos 0, m);
  msgrcv = λ id n typ flags m. ((pos 10, pos 1, lit "hi" ++ lit "junkjunk"), m);
  overrun = λ n m. (tt, m);
  ipc_rmid = pos 0;
  ipc_set = pos 1;
  ipc_stat = pos 2;
}

abbrev templates : TemplateCalls Ledger
templates = record {
  mkdtemp = λ template m. (some (lit "/tmp/a1b2c3"), m);
  mkstemp = λ template m. ((pos 3, lit "/tmp/a1b2c3"), m);
}

abbrev libgen : LibgenCalls Ledger
libgen = record { basename = λ path m. (path, m); dirname = λ path m. (lit ".", m) }

abbrev systems : Systems Ledger
systems = record {
  unistd = calm_unistd;
  msg = queue;
  sockets = calm_sockets;
  families = linux;
  templates = templates;
  libgen = libgen;
}
