-- ===== src/Unistd/Exec.antt =====
-- ext/posix/unistd.c: what exec hands to the new process.
use luaposix.Base.{Bytes, List, [], length, map, refl, some, suc, ℕ, ◌∷◌, ◌≡◌}
use luaposix.Helpers.Args.{checknargs, checkstring}
use luaposix.Helpers.Results.{pusherror}
use luaposix.Helpers.Sequences.{ReadsAs, string_values}
use luaposix.Lua.{Host, Machine, Table, get_index, get_index_entry, string, table, ◌>>=◌}
use luaposix.Unistd.Calls.{UnistdCalls}
use luaposix.Unistd.Process.{argv_from, argv_zero, p_exec, p_execp, runexec, until_null}

module _ ⦃lua : Host⦄ {W : Type 0} (os : UnistdCalls W) where
  argv_from-ReadsAs :
      (i : ℕ) (ty : Bytes) (t : Table) (argv : List Bytes)
      → ReadsAs t i (string_values argv)
      → argv_from os (length argv) i (table ty t) ≡ map some argv
  unfolding get_index
  argv_from-ReadsAs i ty t [] h = refl
  argv_from-ReadsAs i ty t (s ∷ argv) h = rw (h.0, argv_from-ReadsAs (suc i) ty t argv h.1) refl

  until_null-some : (argv : List Bytes) → until_null os (map some argv) ≡ map some argv
  until_null-some [] = refl
  until_null-some (s ∷ argv) = rw (until_null-some argv) refl

  -- For a table that has strings at the indexes 1 to n, n being its length: `exec` calls execv, and
  -- `execp` execvp, with the path and with argv, which is the string at the index 0, or else the
  -- path, and then exactly these strings; the results, if the call comes back, are those of an
  -- error with the path in its message.
  pub exec_passes_arguments :
      (ty path : Bytes) (t : Table) (argv : List Bytes) (w : Machine W)
      → lua.objlen (table ty t) ≡ length argv
      → ReadsAs t 1 (string_values argv)
      → let args = string path ∷ table ty t ∷ [] in
        let passed = map some (argv_zero os path (get_index_entry 0 t) ∷ argv) in
        (p_exec os args w ≡ pusherror (some path) (os.execv path passed w).1)
        × (p_execp os args w ≡ pusherror (some path) (os.execvp path passed w).1)
  unfolding p_exec p_execp runexec checkstring checknargs get_index ◌>>=◌
  exec_passes_arguments ty path t argv w n h =
      rw (n, argv_from-ReadsAs 1 ty t argv h, until_null-some argv) (refl, refl)
