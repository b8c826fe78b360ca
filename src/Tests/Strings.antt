-- ===== src/Tests/Strings.antt =====
-- The theorems on strings that are handed over, alone or in lists, each at one call.
use luaposix.Base.{
  Bool, Bytes, Every, List, Option, [], ap, arith, cast_int, drop, false, if◌then◌else◌, lit,
  minus_one, none, pos, pos_part, refl, some, ℕ, ℤ, ◌+◌, ◌==◌, ◌||◌, ◌∷◌, ◌≡◌,
}
use luaposix.Glob.{GlobCalls, TakesAndFrees}
use luaposix.Helpers.Results.{pusherror}
use luaposix.Helpers.Sequences.{ReadsAs, sequence, sequence-ReadsAs, string_values}
use luaposix.Helpers.Shapes.{Returns}
use luaposix.Lua.{
  Args, Binding, Machine, Table, entries, get_index_entry, integer, ok, string, table, ◌>>=◌,
}
use luaposix.Tests.Fixtures.{Ledger, calm_unistd, idle, lua54, no_options, stack_allocator}
use luaposix.Unistd.Exec.{exec_passes_arguments}
use luaposix.Unistd.Functions.{posix_unistd_fns}
use luaposix.Unistd.Getopt.{GetoptCalls}
use luaposix.Unistd.Getopt.Iterator.{each_option, p_getopt}
use luaposix.Unistd.Getopt.Laws.{Found, closure_of, getopt_returns_all, shown}
use luaposix.Unistd.Process.{p_exec, p_execp}
use luaposix.Unistd.Shapes.{posix_unistd_fns-Returns}
use luaposix.Unistd.Shapes.Types.{shapes_of}

posix_unistd_fns-Returns_example :
    Every
      (λ (f : Bytes × Binding Ledger). (args : Args) → Returns (shapes_of f.0) (f.1 args))
      (posix_unistd_fns ⦃lua = lua54⦄ calm_unistd stack_allocator no_options)
posix_unistd_fns-Returns_example =
    posix_unistd_fns-Returns ⦃lua = lua54⦄ calm_unistd stack_allocator no_options

-- the table { [0] = "ls", "-l", "/tmp" }
abbrev command : Table
command = sequence 0 (string_values (lit "ls" ∷ lit "-l" ∷ lit "/tmp" ∷ []))

command_border : lua54.objlen (table [] command) ≡ 2
unfolding entries
command_border = refl

command_reads : ReadsAs command 0 (string_values (lit "ls" ∷ lit "-l" ∷ lit "/tmp" ∷ []))
command_reads = sequence-ReadsAs 0 (string_values (lit "ls" ∷ lit "-l" ∷ lit "/tmp" ∷ []))

exec_passes_arguments_example :
    let args = string (lit "/bin/ls") ∷ table [] command ∷ [] in
    let passed = some (lit "ls") ∷ some (lit "-l") ∷ some (lit "/tmp") ∷ [] in
    (p_exec ⦃lua = lua54⦄ calm_unistd args idle
      ≡ pusherror ⦃lua = lua54⦄
          (some (lit "/bin/ls"))
          (calm_unistd.execv (lit "/bin/ls") passed idle).1)
    × (p_execp ⦃lua = lua54⦄ calm_unistd args idle
        ≡ pusherror ⦃lua = lua54⦄
            (some (lit "/bin/ls"))
            (calm_unistd.execvp (lit "/bin/ls") passed idle).1)
unfolding get_index_entry
exec_passes_arguments_example =
    exec_passes_arguments ⦃lua = lua54⦄ calm_unistd [] (lit "/bin/ls") command
      (lit "-l" ∷ lit "/tmp" ∷ []) idle command_border command_reads.1

-- a getopt for options of one letter with no argument; optind is the kernel, and there is no message
abbrev letter_of : Bytes → Option ℕ
letter_of (c ∷ l ∷ more) = if c == 45 then some l else none
letter_of s = none

abbrev letter_at : List Bytes → Option ℕ
letter_at [] = none
letter_at (s ∷ argv) = letter_of s

abbrev has_letter : Bytes → ℕ → Bool
has_letter [] l = false
has_letter (c ∷ options) l = c == l || has_letter options l

abbrev answer :
    Option ℕ → Bytes → List Bytes → Machine ℕ → (ℤ × Option Bytes × ℤ × List Bytes) × Machine ℕ
answer none options argv m = ((minus_one, none, pos m.kernel, argv), m)
answer (some l) options argv m = (
  (if has_letter options l then pos l else pos 63, none, pos (m.kernel + 1), argv),
  record m { kernel = m.kernel + 1 },
)

abbrev options_of_ls : GetoptCalls ℕ
options_of_ls = record {
  set_opterr = λ n m. (tt, m);
  set_optind = λ n m. (tt, record m { kernel = pos_part n });
  getopt = λ argc argv options m. answer (letter_at (drop m.kernel argv)) options argv m;
  push_closure = λ c m. (1, m);
}

abbrev before_options : Machine ℕ
before_options = record { errno = pos 0; kernel = 1 }

abbrev found_options : List Found
found_options = (pos 108, none, pos 2) ∷ []

getopt_returns_all_example :
    let args = table [] command ∷ string (lit "al") ∷ integer (pos 0) ∷ integer (pos 1) ∷ [] in
    (p_getopt options_of_ls ⦃lua = lua54⦄ args before_options
      ≡ (ok (closure_of (lit "al") (lit "ls" ∷ lit "-l" ∷ lit "/tmp" ∷ [])), before_options))
    × (((p_getopt options_of_ls ⦃lua = lua54⦄ args >>= each_option options_of_ls 2)
          before_options).0
        ≡ ok (some (shown found_options)))
unfolding cast_int
getopt_returns_all_example =
    getopt_returns_all options_of_ls ⦃lua = lua54⦄ [] (lit "ls") (lit "al") command
      (lit "-l" ∷ lit "/tmp" ∷ []) (pos 0) (pos 1) found_options 2 before_options command_border
      command_reads (_, _, refl, refl, refl) (omega arith)

-- the results of glob that are out; every pattern has two paths
abbrev Results : Type 0
Results = List (List Bytes)

abbrev two_paths : List Bytes
two_paths = lit "a" ∷ lit "b" ∷ []

abbrev rest_of : Results → Results
rest_of [] = []
rest_of (x ∷ xs) = xs

abbrev globbing : GlobCalls Results
globbing = record {
  glob = λ pattern flags m. ((pos 0, two_paths), record m { kernel = two_paths ∷ m.kernel });
  globfree = λ paths m. (tt, record m { kernel = rest_of m.kernel });
}

globbing-TakesAndFrees : TakesAndFrees (λ (k : Results). k) globbing
globbing-TakesAndFrees = record {
  granted = λ pattern flags paths w w' e. cc (ap (λ t. t.0.1) e, ap (λ t. t.1.kernel) e);
  freed = λ paths others w e. ap rest_of e;
}

abbrev none_out : Machine Results
none_out = record { errno = pos 0; kernel = [] }
