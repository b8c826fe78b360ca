-- ===== src/Unistd/Getopt/Laws.antt =====
-- ext/posix/unistd.c: what a loop over the options sees.
use luaposix.Base.{
  Bytes, List, Option, [], arith, cast_int, eq_ℤ, false, length, minus_one, refl, some, suc, zero,
  ℕ, ℤ, ◌+◌, ◌<◌, ◌∷◌, ◌≡◌,
}
use luaposix.Helpers.Args.{checknargs, checkstring, checktype, optinteger}
use luaposix.Helpers.Sequences.{ReadsAs, string_values}
use luaposix.Lua.{Host, Machine, Table, Value, get_index, integer, ok, string, table, ◌>>=◌}
use luaposix.Unistd.Getopt.{Closure, GetoptCalls, read_argv}
use luaposix.Unistd.Getopt.Iterator.{each_option, iter_getopt, option_values, p_getopt}

abbrev pub Found : Type 0
Found = ℤ × Option Bytes × ℤ

abbrev pub closure_of : Bytes → List Bytes → Closure
closure_of options argv = record { argc = length argv; option_string = options; argv = some argv }

abbrev pub shown : List Found → List (List Value)
shown [] = []
shown ((r, optarg, optind) ∷ found) = option_values r optarg optind ∷ shown found

-- what calls of getopt give one after the other, each with argv as the one before left it: these
-- results, and then -1
abbrev pub Gives :
    {W : Type 0} → GetoptCalls W → ℕ → Bytes → List Bytes → Machine W → List Found → Type 0
Gives os argc options argv w [] = (os.getopt argc argv options w).0.0 ≡ minus_one
Gives {W} os argc options argv w ((r, optarg, optind) ∷ found) =
    (argv' : List Bytes) × (w' : Machine W) × (os.getopt argc argv options w
      ≡ ((r, optarg, optind, argv'), w'))
    × (eq_ℤ r minus_one ≡ false)
    × Gives os argc options argv' w' found

module _ ⦃lua : Host⦄ where
  read_argv-ReadsAs :
      (i : ℕ) (ty : Bytes) (t : Table) (argv : List Bytes)
      → ReadsAs t i (string_values argv)
      → read_argv (length argv) i (table ty t) ≡ ok argv
  unfolding read_argv get_index
  read_argv-ReadsAs i ty t [] h = refl
  read_argv-ReadsAs i ty t (s ∷ argv) h = rw (h.0, read_argv-ReadsAs (suc i) ty t argv h.1)

module _ {W : Type 0} (os : GetoptCalls W) where
  each_option_all :
      (found : List Found) (fuel argc : ℕ) (options : Bytes) (argv : List Bytes) (w : Machine W)
      → Gives os argc options argv w found
      → length found < fuel
      → (each_option os fuel
          (record { argc = argc; option_string = options; argv = some argv })
          w).0
        ≡ ok (some (shown found))
  unfolding each_option iter_getopt ◌>>=◌
  each_option_all found zero argc options argv w h l = absurd (omega arith)
  each_option_all [] (suc fuel) argc options argv w h l = rw (h, ◌>>=◌) refl
  each_option_all ((r, optarg, optind) ∷ found) (suc fuel) argc options argv w h l =
      let (argv', w', e, o, rest) = h in
      rw (e, ◌>>=◌)
        (rw o (rw (each_option_all found fuel argc options argv' w' rest (omega arith)) refl))

module _ {W : Type 0} (os : GetoptCalls W) ⦃lua : Host⦄ where
  -- the process after opterr and optind are written
  abbrev pub prepared : ℤ → ℤ → Machine W → Machine W
  prepared opterr optind w =
      (os.set_optind (cast_int optind) (os.set_opterr (cast_int opterr) w).1).1

  -- For a table that has strings at the indexes 0 to n, n being its length: argv is exactly these
  -- strings. Where calls of getopt with this argv, each with argv as the one before left it, give a
  -- finite number of options and then -1, fuel above their number is enough: a loop over the
  -- iterator gets all of them, in their order, and ends.
  pub getopt_returns_all :
      (ty name options : Bytes) (t : Table) (argv : List Bytes) (opterr optind : ℤ)
      (found : List Found) (fuel : ℕ) (w : Machine W)
      → lua.objlen (table ty t) ≡ length argv
      → ReadsAs t 0 (string_values (name ∷ argv))
      → Gives os (length (name ∷ argv)) options (name ∷ argv) (prepared opterr optind w) found
      → length found < fuel
      → let args = table ty t ∷ string options ∷ integer opterr ∷ integer optind ∷ [] in
        (p_getopt os args w ≡ (ok (closure_of options (name ∷ argv)), prepared opterr optind w))
        × (((p_getopt os args >>= each_option os fuel) w).0 ≡ ok (some (shown found)))
  unfolding p_getopt checknargs checktype checkstring optinteger ◌>>=◌
  getopt_returns_all ty name options t argv opterr optind found fuel w n h g l =
      let entries : lua.objlen (table ty t) + 1 ≡ length (name ∷ argv) = omega (arith, n) in
      let called : p_getopt os (table ty t ∷ string options ∷ integer opterr ∷ integer optind ∷ [])
            w
          ≡ (ok (closure_of options (name ∷ argv)), prepared opterr optind w) =
        rw (entries, read_argv-ReadsAs 0 ty t (name ∷ argv) h) refl in
      (
        called,
        rw called (
            each_option_all os found fuel (length (name ∷ argv)) options (name ∷ argv)
              (prepared opterr optind w) g l),
      )
