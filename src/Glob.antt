-- ===== src/Glob.antt =====
-- ext/posix/glob.c. The loop counts with an unsigned int, so there are fewer than 2^32 paths here.
use luaposix.Base.{
  Bytes, List, Option, [], cast_int, eq_ℤ, if◌then◌else◌, lit, none, not, pos, refl, some, ℤ, ◌∷◌,
  ◌≡◌,
}
use luaposix.Helpers.Args.{checkint, checknargs, optstring}
use luaposix.Helpers.Sequences.{ReadsAs, sequence, sequence-ReadsAs, string_values}
use luaposix.Lua.{
  Binding, Call, Host, Machine, Table, call, integer, lift, nil, ok, pure, string, table, ◌>>=◌,
  ◌>>◌,
}

pub record GlobCalls (W : Type 0) : Type 0 where
  -- the result, and gl_pathv; the paths are meant only where the result is 0
  pub glob : Bytes → ℤ → Call W (ℤ × List Bytes)
  pub globfree : List Bytes → Call W (Unit {0})

-- optstring with a default that is not NULL
abbrev pub pattern_or_star : Option Bytes → Bytes
pattern_or_star none = lit "*"
pattern_or_star (some s) = s

unfoldable pub p_glob : ⦃lua : Host⦄ {W : Type 0} (os : GlobCalls W) → Binding W
unfolding ◌>>=◌ optstring checkint checknargs
p_glob os args = do
  pattern_arg ← lift (optstring args 1 (some (lit "*")))
  flags ← lift (checkint args 2)
  lift (checknargs args 2)
  (globret, paths) ← call (os.glob (pattern_or_star pattern_arg) flags)
  if not (eq_ℤ globret (pos 0))
      then pure (nil ∷ integer globret ∷ [])
      else do call (os.globfree paths); pure (table [] (sequence 1 (string_values paths)) ∷ [])

module _ {W : Type 0} (taken : W → List (List Bytes)) (os : GlobCalls W) where
  -- results are taken by a glob that succeeds, and given back by globfree
  pub record TakesAndFrees : Type 0 where
    pub granted :
        (pattern : Bytes) (flags : ℤ) (paths : List Bytes) (w w' : Machine W)
        → os.glob pattern flags w ≡ ((pos 0, paths), w')
        → taken w'.kernel ≡ paths ∷ taken w.kernel
    pub freed :
        (paths : List Bytes) (others : List (List Bytes)) (w : Machine W)
        → taken w.kernel ≡ paths ∷ others
        → taken (os.globfree paths w).1.kernel ≡ others

module _ ⦃lua : Host⦄ {W : Type 0} (taken : W → List (List Bytes)) (os : GlobCalls W)
    (law : TakesAndFrees taken os) where
  -- Where glob finds paths: the call returns a table of exactly these, numbered from 1 in their
  -- order, and the results are given back to a system that takes and frees them.
  pub glob_returns_paths :
      (pattern : Bytes) (flags : ℤ) (paths : List Bytes) (w w' : Machine W)
      → os.glob pattern (cast_int flags) w ≡ ((pos 0, paths), w')
      → let (r, after) = p_glob os (string pattern ∷ integer flags ∷ []) w in
        ((t : Table) × (r ≡ ok (table [] t ∷ [])) × ReadsAs t 1 (string_values paths))
        × (taken after.kernel ≡ taken w.kernel)
  unfolding p_glob optstring checkint checknargs ◌>>=◌
  glob_returns_paths pattern flags paths w w' e = rw e (
    (sequence 1 (string_values paths), refl, sequence-ReadsAs 1 (string_values paths)),
    law.freed paths (taken w.kernel) w' (law.granted pattern (cast_int flags) paths w w' e),
  )
