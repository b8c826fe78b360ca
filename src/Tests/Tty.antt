-- ===== src/Tests/Tty.antt =====
-- openpty in a small system, where the slave can be opened and where it cannot.

-- the lowest number above those in use, while there are fewer than 1000
use luaposix.Base.{
  Bool, Bool-cases, [], arith, cast_int, cast_uint, eq_ℤ, false, if◌then◌else◌, inl, inr, lit, ltb,
  minus_one, negsuc, none, pos, refl, some, true, ℕ, ℤ, ◌∷◌, ◌≡◌,
}
use luaposix.Fcntl.Bindings.{FcntlCalls, p_open}
use luaposix.Helpers.Args.{checkint, checknargs, checkstring, optinteger}
use luaposix.Helpers.Results.{pusherror, pushintegerresult, pushresult, pushstringresult}
use luaposix.Lua.{Machine, integer, string, ◌>>=◌}
use luaposix.Posix.Openpty.{
  PtyCalls, close_master, grant_slave, name_slave, open_slave, p_openpty, unlock_slave,
}
use luaposix.Posix.Openpty.Descriptors.{EndsWell, KeepsPty, Opening}
use luaposix.Posix.Openpty.Outcome.{openpty_leaks_nothing}
use luaposix.Posix.Script.{Script, call_binding, give, returned}
use luaposix.Stdlib.Bindings.{StdlibCalls, p_grantpt, p_openpt, p_ptsname, p_unlockpt}
use luaposix.Tests.Fixtures.{lua54}
use luaposix.Tests.Kernel.{Proc, above, files_of, small_unistd}
use luaposix.Tests.Kernel.Laws.{close_closes, fd_lookup-above}
use luaposix.Unistd.Descriptors.{p_close}

abbrev open_next : ℕ → Machine Proc → ℤ × Machine Proc
open_next f w =
    let n = above w.kernel.table in
    if ltb n 1000
    then (pos n, record w { kernel = record w.kernel { table = (n, f) ∷ w.kernel.table } })
    else (minus_one, w)

-- a full system has no name for the slave
abbrev tty_stdlib : StdlibCalls Proc
tty_stdlib = record {
  abort = λ w. (tt, w);
  environ = λ w. ([], w);
  getenv = λ name w. (none, w);
  grantpt = λ fd w. (pos 0, w);
  open_file = λ path flags. open_next 20;
  ptsname = λ fd w. (if w.kernel.is_full then none else some (lit "/dev/pts/0"), w);
  realpath = λ path w. (none, w);
  unsetenv = λ name w. (pos 0, w);
  setenv = λ name value overwrite w. (pos 0, w);
  unlockpt = λ fd w. (pos 0, w);
}

abbrev tty_fcntl : FcntlCalls Proc
tty_fcntl = record {
  fcntl_lock = λ fd cmd type whence start len w. (
    (
      pos 0,
      record { l_type = type; l_whence = whence; l_start = start; l_len = len; l_pid = pos 0 },
    ),
    w,
  );
  fcntl_int = λ fd cmd arg w. (pos 0, w);
  open_file = λ path flags mode. open_next 21;
  posix_fadvise = λ fd offset len advice w. (pos 0, w);
  f_setlk = pos 6;
  f_setlkw = pos 7;
  f_getlk = pos 5;
}

abbrev small_tty : PtyCalls Proc
small_tty = record {
  stdlib = tty_stdlib;
  fcntl = tty_fcntl;
  unistd = small_unistd;
  rdwr_noctty = pos 258;
}

extended :
    (n : ℤ) (f : ℕ) (k : Proc)
    → files_of (record k { table = (above k.table, f) ∷ k.table }) n
      ≡ (if eq_ℤ n (pos (above k.table)) then some f else files_of k n)
extended (pos m) f k = refl
extended (negsuc m) f k = refl

opens_next :
    (f : ℕ) (w : Machine Proc)
    → Opening (files_of w.kernel) (files_of (open_next f w).1.kernel) (open_next f w).0
opens_next f w = elim (Bool-cases (ltb (above w.kernel.table) 1000)) [
  | inl small ↦ rw small record {
    fits = ground (arith, small);
    failed = λ e. cc;
    file = f;
    free = λ e. fd_lookup-above (above w.kernel.table) w.kernel.table (omega arith);
    opened = λ e n. extended n f w.kernel;
  }
  | inr large ↦ rw large record {
    fits = omega arith;
    failed = λ e n. refl;
    file = f;
    free = λ e. absurd (e refl);
    opened = λ e. absurd (e refl);
  }
]

small_tty-KeepsPty : KeepsPty files_of small_tty
small_tty-KeepsPty = record {
  opens_master = λ path flags w. opens_next 20 w;
  opens_slave = λ path flags mode w. opens_next 21 w;
  grants = λ fd n w. refl;
  unlocks = λ fd n w. refl;
  names = λ fd n w. refl;
  closes = close_closes;
}

abbrev with_stdin : Bool → Machine Proc
with_stdin b = record {
  kernel = record { table = (0, 5) ∷ []; kids = []; is_child = false; is_full = b };
  errno = pos 0;
}

openpty_leaks_nothing_example :
    EndsWell files_of (with_stdin true).kernel (p_openpty ⦃lua = lua54⦄ small_tty (with_stdin true))
openpty_leaks_nothing_example =
    openpty_leaks_nothing ⦃lua = lua54⦄ files_of small_tty small_tty-KeepsPty (with_stdin true)

-- both ends are opened
openpty_opens :
    (p_openpty ⦃lua = lua54⦄ small_tty (with_stdin false)).0
    ≡ returned (integer (pos 1) ∷ integer (pos 2) ∷ string (lit "/dev/pts/0") ∷ [])
unfolding p_openpty grant_slave unlock_slave name_slave open_slave close_master give ◌>>=◌
    call_binding p_openpt p_grantpt p_unlockpt p_ptsname p_open p_close checkint checkstring
    checknargs optinteger pushresult pusherror pushstringresult cast_int cast_uint pushintegerresult
    luaposix.Posix.Script.◌>>=◌
openpty_opens = refl

-- without a name the master is closed
openpty_closes : (p_openpty ⦃lua = lua54⦄ small_tty (with_stdin true)).1.kernel.table ≡ (0, 5) ∷ []
unfolding p_openpty grant_slave unlock_slave name_slave open_slave close_master give ◌>>=◌
    call_binding p_openpt p_grantpt p_unlockpt p_ptsname p_open p_close checkint checkstring
    checknargs optinteger pushresult pusherror pushstringresult cast_int cast_uint pushintegerresult
    luaposix.Posix.Script.◌>>=◌
openpty_closes = refl
