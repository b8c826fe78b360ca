-- ===== src/Sys/Resource.antt =====
-- ext/posix/sys/resource.c: limits, to and from tables. An rlim_t is an unsigned integer of 64 bits;
-- as a lua_Integer it is signed.
use luaposix.Base.{Bytes, List, [], arith, cast_long, cast_size, lit, pos, ℕ, ℤ, ◌<◌, ◌^◌, ◌∷◌, ◌≡◌}
use luaposix.Helpers.Fields.{checkfieldnames, checkintegerfield}
use luaposix.Helpers.Results.{typed_table}
use luaposix.Lua.{Call, Host, Outcome, Value, integer, ok}
use luaposix.Lua.Checks.{◌>>=◌, ◌>>◌}

pub record Rlimit : Type 0 where
  pub rlim_cur : ℕ
  pub rlim_max : ℕ

pub record ResourceCalls (W : Type 0) : Type 0 where
  pub getrlimit : ℤ → Call W (ℤ × Rlimit)
  pub setrlimit : ℤ → Rlimit → Call W ℤ

abbrev pub rlimit_fields : List Bytes
rlimit_fields = lit "rlim_cur" ∷ lit "rlim_max" ∷ []

unfoldable pub pushrlimit : Rlimit → Value
unfolding typed_table
pushrlimit lim = typed_table (lit "PosixRlimit") (
    (lit "rlim_cur", integer (cast_long (pos lim.rlim_cur)))
    ∷ (lit "rlim_max", integer (cast_long (pos lim.rlim_max)))
    ∷ [])

module _ ⦃lua : Host⦄ where
  -- the limits of Psetrlimit
  unfoldable pub read_limits : Value → Outcome Rlimit
  unfolding checkintegerfield checkfieldnames
  read_limits t = do
    cur ← checkintegerfield t 2 (lit "rlim_cur")
    max ← checkintegerfield t 2 (lit "rlim_max")
    checkfieldnames t 2 rlimit_fields
    ok (record { rlim_cur = cast_size cur; rlim_max = cast_size max })

  cast_size-cast_long : (n : ℕ) → n < 2 ^ 64 → cast_size (cast_long (pos n)) ≡ n
  unfolding cast_size cast_long
  cast_size-cast_long n h = ground arith

  -- Limits of 64 bits, RLIM_INFINITY included, which a table shows as -1, are read back from the
  -- table as they were.
  pub rlimit_round_trip :
      (lim : Rlimit)
      → lim.rlim_cur < 2 ^ 64
      → lim.rlim_max < 2 ^ 64
      → read_limits (pushrlimit lim) ≡ ok lim
  unfolding read_limits pushrlimit
  rlimit_round_trip lim cur max =
      rw (cast_size-cast_long lim.rlim_cur cur, cast_size-cast_long lim.rlim_max max)
