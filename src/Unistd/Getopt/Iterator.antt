-- ===== src/Unistd/Getopt/Iterator.antt =====
-- ext/posix/unistd.c: the calls of getopt.
use luaposix.Base.{
  Bool, Bytes, List, Option, [], cast_int, cast_uint, eq_ℤ, false, if◌then◌else◌, lit, minus_one,
  none, pos, some, suc, true, zero, ℕ, ℤ, ◌%◌, ◌+◌, ◌∷◌,
}
use luaposix.Helpers.Args.{arg, checknargs, checkstring, checktype, optinteger}
use luaposix.Lua.{
  Args, Binding, Exec, Host, LuaType, Value, call, function, integer, lift, nil, pure, string,
  ◌>>=◌, ◌>>◌,
}
use luaposix.Unistd.Getopt.{Closure, GetoptCalls, read_argv}

abbrev pub optional : Option Bytes → Value
optional none = nil
optional (some s) = string s

-- the three results for an option
abbrev pub option_values : ℤ → Option Bytes → ℤ → List Value
option_values r optarg optind =
    string (cast_uint r % 256 ∷ []) ∷ optional optarg ∷ integer optind ∷ []

module _ {W : Type 0} (os : GetoptCalls W) where
  -- what follows the call, with the closure as it is then
  abbrev pub found_option :
      Closure → ℤ × Option Bytes × ℤ × List Bytes → Exec W (List Value × Closure)
  found_option c (r, optarg, optind, argv) =
      let c' = record c { argv = some argv } in
      if eq_ℤ r minus_one
      then pure ([], c')
      else pure (string (cast_uint r % 256 ∷ []) ∷ optional optarg ∷ integer optind ∷ [], c')

  -- argv comes first, then the rest of the closure
  abbrev pub next_option : Option (List Bytes) → Closure → Exec W (List Value × Closure)
  next_option none c = pure ([], c)
  next_option (some argv) c = call (os.getopt c.argc argv c.option_string) >>= found_option c

  -- what the closure returns, and the closure after the call
  unfoldable pub iter_getopt : Closure → Exec W (List Value × Closure)
  unfolding ◌>>=◌
  iter_getopt c = next_option c.argv c

  unfoldable pub p_getopt : ⦃lua : Host⦄ → Args → Exec W Closure
  unfolding ◌>>=◌ checknargs checktype checkstring optinteger read_argv
  p_getopt ⦃lua⦄ args = do
    lift (checknargs args 4)
    lift (checktype args 1 LuaType.ttable (lit "list"))
    option_string ← lift (checkstring args 2)
    opterr ← lift (optinteger args 3 (pos 0))
    call (os.set_opterr (cast_int opterr))
    optind ← lift (optinteger args 4 (pos 1))
    call (os.set_optind (cast_int optind))
    let argc = lua.objlen (arg args 1) + 1
    argv ← lift (read_argv argc 0 (arg args 1))
    pure (record { argc = argc; option_string = option_string; argv = some argv })

  -- the function of the table, which returns the closure
  unfoldable pub getopt_function : ⦃lua : Host⦄ → Binding W
  unfolding ◌>>=◌
  getopt_function args = do c ← p_getopt args; f ← call (os.push_closure c); pure (function f ∷ [])

  -- a for loop over the iterator: it ends where the first result is nil or absent
  abbrev pub is_end : List Value → Bool
  is_end [] = true
  is_end (nil ∷ results) = true
  is_end (_ ∷ results) = false

  unfoldable pub each_option : ℕ → Closure → Exec W (Option (List (List Value)))
  unfolding ◌>>=◌ iter_getopt
  each_option zero c = pure none
  each_option (suc fuel) c = do
    (results, c') ← iter_getopt c
    if is_end results then pure (some []) else do
      rest ← each_option fuel c'
      pure (elim rest [ none ↦ none | some rs ↦ some (results ∷ rs) ])
