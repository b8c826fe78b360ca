-- ===== src/Tests/Processes.antt =====
-- The theorems on file modes, each at one call.
use luaposix.Base.{
  Bytes, [], arith, bit_and, cast_int, lit, none, pos, refl, some, ℕ, ◌%◌, ◌-◌, ◌<◌, ◌∷◌, ◌≡◌, ◌⊎◌,
}
use luaposix.Helpers.Results.{pushresult}
use luaposix.Lua.{Machine, integer, run_error, string}
use luaposix.Posix.Modes.{mode_munch, pushmode, rwxall}
use luaposix.Posix.Modes.Chmod.{chmod_clears_special_bits}
use luaposix.Posix.Modes.Functions.{legacy_chmod, legacy_umask}
use luaposix.Posix.Modes.RoundTrip.{pushmode_round_trip, without_sticky}
use luaposix.Posix.Modes.Umask.{MasksFiles, umask_round_trip}
use luaposix.Posix.Script.{returned, thrown}
use luaposix.Sys.Stat.{Stat, StatCalls}
use luaposix.Tests.Fixtures.{idle, lua54}

abbrev directory : Stat
directory = record {
  st_dev = pos 1;
  st_ino = pos 2;
  st_mode = pos 16877;
  st_nlink = pos 2;
  st_uid = pos 0;
  st_gid = pos 0;
  st_rdev = pos 0;
  st_size = pos 4096;
  st_blksize = pos 4096;
  st_blocks = pos 8;
  st_atime = pos 0;
  st_mtime = pos 0;
  st_ctime = pos 0;
}

abbrev pub calm_stat : {W : Type 0} → StatCalls W
calm_stat = record {
  s_isblk = λ mode. pos 0;
  s_ischr = λ mode. pos 0;
  s_isdir = λ mode. pos 1;
  s_isfifo = λ mode. pos 0;
  s_islnk = λ mode. pos 0;
  s_isreg = λ mode. pos 0;
  s_issock = λ mode. pos 0;
  chmod = λ path mode m. (pos 0, m);
  lstat = λ path m. ((pos 0, directory), m);
  fstat = λ fd m. ((pos 0, directory), m);
  stat = λ path m. ((pos 0, directory), m);
  mkdir = λ path mode m. (pos 0, m);
  mkfifo = λ path mode m. (pos 0, m);
  umask = λ mode m. (18, m);
}

abbrev masking_stat : StatCalls ℕ
masking_stat = record calm_stat { umask = λ mode m. (m.kernel % 512, record m { kernel = mode }) }

abbrev shown : ℕ → ℕ
shown k = k % 512

masking_stat-MasksFiles : MasksFiles shown masking_stat
masking_stat-MasksFiles = record {
  below = λ k. omega arith;
  returns = λ n w. refl;
  sets = λ n w. refl;
}

-- with the mask 022
abbrev usual : Machine ℕ
usual = record { errno = pos 0; kernel = 18 }

abbrev group_writes : Bytes
group_writes = lit "g+w,o-rx"

munched : mode_munch 493 group_writes ≡ some 504
unfolding mode_munch
munched = refl

umask_round_trip_example :
    ((bits : ℕ) × (mode_munch 493 group_writes ≡ some bits)
      × (let m = bit_and bits rwxall in
          (u : Machine ℕ) × (v : Machine ℕ) × (legacy_umask ⦃lua = lua54⦄ masking_stat group_writes
              usual
            ≡ (returned (string (pushmode m) ∷ []), u))
          × (shown u.kernel ≡ 511 - m)
          × (legacy_umask ⦃lua = lua54⦄ masking_stat [] u
              ≡ (returned (string (pushmode m) ∷ []), v))
          × (shown v.kernel ≡ shown u.kernel)))
    ⊎ ((mode_munch 493 group_writes ≡ none)
        × ((u : Machine ℕ) × (legacy_umask ⦃lua = lua54⦄ masking_stat group_writes usual
              ≡ (thrown (run_error (lit "bad argument #1 to 'umask' (bad mode)")), u))
            × (shown u.kernel ≡ shown usual.kernel)))
umask_round_trip_example =
    umask_round_trip ⦃lua = lua54⦄ shown masking_stat masking_stat-MasksFiles group_writes usual
      refl

pushmode_round_trip_example : mode_munch 420 (pushmode 2541) ≡ some (without_sticky 2541)
pushmode_round_trip_example = pushmode_round_trip 420 2541 (omega arith)

-- setgid is set by the text, and not asked for
special : mode_munch 16877 (lit "g+s") ≡ some 17901
unfolding mode_munch
special = refl

chmod_clears_special_bits_example :
    (legacy_chmod ⦃lua = lua54⦄ calm_stat (lit "/tmp") (some (lit "g+s")) idle
      ≡ (returned (integer (pos 0) ∷ []), idle))
    × (493 < 512)
unfolding pushresult cast_int
chmod_clears_special_bits_example =
    chmod_clears_special_bits ⦃lua = lua54⦄ calm_stat (lit "/tmp") (lit "g+s") directory 16877 17901
      (pos 0) (pos 0) idle idle idle refl (λ e. cc) refl (omega arith) special refl

changed : mode_munch 420 (lit "u+x,go-r") ≡ some 448
unfolding mode_munch
changed = refl

set_and_changed : mode_munch 420 (lit "a=rw, u + x") ≡ some 502
unfolding mode_munch
set_and_changed = refl

no_who : mode_munch 420 (lit "+x") ≡ none
unfolding mode_munch
no_who = refl

octal : mode_munch 420 (lit "0755") ≡ some 493
unfolding mode_munch
octal = refl
