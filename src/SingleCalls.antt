-- ===== src/SingleCalls.antt =====
-- ext/posix/utime.c, ext/posix/sched.c, ext/posix/fnmatch.c and ext/posix/ctype.c.
use luaposix.Base.{Bytes, [], cast_int, if◌then◌else◌, ltb, none, pos, some, ℤ, ◌-ℤ◌, ◌∷◌}
use luaposix.Helpers.Args.{checknargs, checkstring, optint, optinteger}
use luaposix.Helpers.Results.{pushintegerresult, pushresult}
use luaposix.Lua.{Binding, Call, Host, call, lift, ◌>>=◌, ◌>>◌}

pub record SingleCallSystem (W : Type 0) : Type 0 where
  pub time : Call W ℤ
  -- the path, modtime and actime
  pub utime : Bytes → ℤ → ℤ → Call W ℤ
  pub sched_getscheduler : ℤ → Call W ℤ
  -- the pid, the policy and the priority
  pub sched_setscheduler : ℤ → ℤ → ℤ → Call W ℤ
  pub sched_other : ℤ
  pub fnmatch : Bytes → Bytes → ℤ → ℤ
  pub isgraph : ℤ → ℤ
  pub isprint : ℤ → ℤ

-- the first char of a string as a signed char; the empty string has its zero
abbrev pub first_byte : Bytes → ℤ
first_byte [] = pos 0
first_byte (c ∷ s) = if ltb c 128 then pos c else pos c -ℤ pos 256

module _ ⦃lua : Host⦄ {W : Type 0} (os : SingleCallSystem W) where
  unfoldable pub p_utime : Binding W
  unfolding ◌>>=◌ checkstring optinteger checknargs pushresult
  p_utime args = do
    currtime ← call os.time
    path ← lift (checkstring args 1)
    modtime ← lift (optinteger args 2 currtime)
    actime ← lift (optinteger args 3 currtime)
    lift (checknargs args 3)
    r ← call (os.utime path modtime actime)
    pushresult r (some path)

  unfoldable pub p_sched_getscheduler : Binding W
  unfolding ◌>>=◌ optinteger checknargs pushresult
  p_sched_getscheduler args = do
    pid ← lift (optinteger args 1 (pos 0))
    lift (checknargs args 1)
    r ← call (os.sched_getscheduler (cast_int pid))
    pushresult r none

  unfoldable pub p_sched_setscheduler : Binding W
  unfolding ◌>>=◌ optinteger optint checknargs pushresult
  p_sched_setscheduler args = do
    pid ← lift (optinteger args 1 (pos 0))
    policy ← lift (optint args 2 os.sched_other)
    priority ← lift (optint args 3 (pos 0))
    lift (checknargs args 3)
    r ← call (os.sched_setscheduler (cast_int pid) policy priority)
    pushresult r none

  unfoldable pub p_fnmatch : Binding W
  unfolding ◌>>=◌ checkstring optint checknargs pushintegerresult
  p_fnmatch args = do
    pattern ← lift (checkstring args 1)
    s ← lift (checkstring args 2)
    flags ← lift (optint args 3 (pos 0))
    lift (checknargs args 3)
    pushintegerresult (os.fnmatch pattern s flags)

  unfoldable pub bind_ctype : (ℤ → ℤ) → Binding W
  unfolding ◌>>=◌ checkstring checknargs pushintegerresult
  bind_ctype cb args = do
    s ← lift (checkstring args 1)
    lift (checknargs args 1)
    pushintegerresult (cb (first_byte s))

  unfoldable pub p_isgraph : Binding W
  unfolding bind_ctype
  p_isgraph args = bind_ctype os.isgraph args

  unfoldable pub p_isprint : Binding W
  unfolding bind_ctype
  p_isprint args = bind_ctype os.isprint args
