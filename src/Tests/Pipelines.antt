-- ===== src/Tests/Pipelines.antt =====
-- The theorems on pipelines, each at one call.
use luaposix.Base.{
  [], arith, cast_int, eq_ℤ, false, if◌then◌else◌, length, lit, none, pos, refl, some, true, ℕ, ℤ,
  ◌∷◌, ◌≡◌, ◌≢◌,
}
use luaposix.Helpers.Args.{checkint, checknargs}
use luaposix.Helpers.Results.{pushresult}
use luaposix.Lua.{Machine, empty, entry, integer, run_error, string, table}
use luaposix.Posix.Ends.{fork_failure_leaks, stage_gets_its_ends}
use luaposix.Posix.Kernel.{WaitsOut}
use luaposix.Posix.Pclose.{pipeline_leaves_nothing}
use luaposix.Posix.Pipelines.{child_pids}
use luaposix.Posix.Processes.{
  Pipeline, Task, append_stages, command, new_pipe, p_execx, p_pclose, p_popen, p_popen_pipeline,
  stage, start_task,
}
use luaposix.Posix.Script.{call_binding, give, returned, thrown, ◌>>=◌}
use luaposix.Tests.Fixtures.{lua54}
use luaposix.Tests.Kernel.{Proc, children_of, files_of, small_system}
use luaposix.Tests.Kernel.Laws.{small_system-Keeps}
use luaposix.Unistd.Descriptors.{p_close, p_pipe}
use luaposix.Unistd.Process.{p_fork}

abbrev running : Machine Proc
running = record {
  errno = pos 0;
  kernel = record {
    table = (0, 1) ∷ (1, 2) ∷ (2, 3) ∷ [];
    kids = [];
    is_child = false;
    is_full = false;
  };
}

abbrev listing : Task Proc
listing = command (table [] (entry (integer (pos 1)) (string (lit "ls")) empty))

abbrev counting : Task Proc
counting = command (table [] (entry (integer (pos 1)) (string (lit "wc")) empty))

abbrev two_stages : Pipeline
two_stages = record { pids = child_pids (0 ∷ 1 ∷ []); fd = integer (pos 4) }

abbrev with_two : Machine Proc
with_two = record running {
  kernel = record running.kernel {
    table = (4, 10) ∷ (0, 1) ∷ (1, 2) ∷ (2, 3) ∷ [];
    kids = 1 ∷ 0 ∷ [];
  };
}

runs :
    p_popen_pipeline ⦃lua = lua54⦄ small_system
      (listing ∷ counting ∷ [])
      (lit "r")
      (new_pipe ⦃lua = lua54⦄ small_system)
      running
    ≡ (returned two_stages, with_two)
unfolding p_popen_pipeline append_stages p_popen start_task new_pipe ◌>>=◌ give call_binding p_fork
    p_pipe p_close checknargs checkint pushresult cast_int
runs = refl

abbrev closed : Machine Proc
closed = (p_pclose ⦃lua = lua54⦄ small_system two_stages with_two).1

two_stages-WaitsOut :
    WaitsOut small_system two_stages.pids
      (call_binding (p_close ⦃lua = lua54⦄ small_system.unistd) (two_stages.fd ∷ []) with_two).1
unfolding call_binding p_close checknargs checkint pushresult cast_int
two_stages-WaitsOut = (refl, (refl, tt))

pipeline_leaves_nothing_example :
    (length two_stages.pids ≡ 2)
    × ((fd : ℤ) × (f : ℕ) × (integer (pos 4) ≡ integer fd)
        × (files_of running.kernel fd ≡ none)
        × ((n : ℤ)
            → files_of with_two.kernel n
              ≡ (if eq_ℤ n fd then some f else files_of running.kernel n)))
    × ((n : ℤ)
        → (files_of closed.kernel n ≡ files_of running.kernel n)
          × (children_of closed.kernel n ≡ children_of running.kernel n))
pipeline_leaves_nothing_example =
    pipeline_leaves_nothing ⦃lua = lua54⦄ files_of children_of small_system small_system-Keeps
      (listing ∷ counting ∷ []) (lit "r") two_stages running with_two (omega arith) runs
      two_stages-WaitsOut

-- in the child of the second stage
abbrev in_child : Machine Proc
in_child = record running {
  kernel = record running.kernel {
    table = (3, 10) ∷ (0, 1) ∷ (1, 2) ∷ (2, 3) ∷ [];
    is_child = true;
  };
}

abbrev piped : Machine Proc
piped = record in_child {
  kernel = record in_child.kernel {
    table = (4, 10) ∷ (5, 11) ∷ (3, 10) ∷ (0, 1) ∷ (1, 2) ∷ (2, 3) ∷ [];
  };
}

stage_gets_its_ends_example :
    (u : Machine Proc) × (p_popen ⦃lua = lua54⦄ small_system
        (stage ⦃lua = lua54⦄ small_system (integer (pos 3)) counting)
        (lit "r")
        (new_pipe ⦃lua = lua54⦄ small_system)
        in_child
      ≡ p_execx ⦃lua = lua54⦄ small_system counting [] u)
    × ((n : ℤ)
        → files_of u.kernel n ≡ (
            if eq_ℤ n (pos 1)
            then some 11
            else if eq_ℤ n (pos 0)
            then some 10
            else if eq_ℤ n (pos 3)
            then none
            else files_of in_child.kernel n))
stage_gets_its_ends_example =
    stage_gets_its_ends ⦃lua = lua54⦄ files_of children_of small_system small_system-Keeps counting
      false (pos 3) (pos 4) (pos 5) 0 10 1 2 in_child piped (omega arith) (λ e. cc) (λ e. cc) refl
      refl refl refl refl

-- in a process that cannot fork
abbrev full : Machine Proc
full = record running { kernel = record running.kernel { is_full = true } }

abbrev full_piped : Machine Proc
full_piped = record full {
  kernel = record full.kernel { table = (3, 10) ∷ (4, 11) ∷ (0, 1) ∷ (1, 2) ∷ (2, 3) ∷ [] };
}

fork_failure_leaks_example :
    (p_popen ⦃lua = lua54⦄ small_system counting
        (lit "r")
        (new_pipe ⦃lua = lua54⦄ small_system)
        full
      ≡ (thrown (run_error (lit "error forking")), full_piped))
    × (files_of full.kernel (pos 3) ≡ none)
    × (files_of full.kernel (pos 4) ≡ none)
    × (files_of full_piped.kernel (pos 3) ≢ none)
    × (files_of full_piped.kernel (pos 4) ≢ none)
fork_failure_leaks_example =
    fork_failure_leaks ⦃lua = lua54⦄ files_of children_of small_system small_system-Keeps counting
      false (pos 3) (pos 4) 0 full full_piped full_piped refl refl
