-- ===== src/Posix/Modes/Chmod.antt =====
-- lib/posix/compat.lua: what chmod asks the system for.
use luaposix.Base.{
  Bytes, [], arith, bit_and, cast_uint_pos, eq_ℤ, eq_ℤ_iff, false, minus_one, pos, refl, some, ℕ, ℤ,
  ◌<◌, ◌^◌, ◌∷◌, ◌≡◌, ◌≢◌,
}
use luaposix.Helpers.Args.{checkinteger, checknargs, checkstring}
use luaposix.Helpers.Results.{pushresult}
use luaposix.Lua.{Host, Machine, get_field, integer, string}
use luaposix.Posix.Modes.{mode_munch, rwxall}
use luaposix.Posix.Modes.Functions.{legacy_chmod, mode_before}
use luaposix.Posix.Modes.Umask.{bit_and-le, cast_size_pos}
use luaposix.Posix.Script.{call_binding, ending_of, give, returned, ◌>>=◌}
use luaposix.Sys.Stat.{Stat, StatCalls, p_chmod, p_stat, pushstat, stat_or_error}
use luaposix.Unistd.Access.{bits}

module _ ⦃lua : Host⦄ {W : Type 0} (os : StatCalls W) where
  stating :
      (path : Bytes) (st : Stat) (r : ℤ) (w v : Machine W)
      → os.stat path w ≡ ((r, st), v)
      → r ≢ minus_one
      → call_binding (p_stat os) (string path ∷ []) w ≡ (returned (pushstat st ∷ []), v)
  unfolding call_binding p_stat checkstring checknargs stat_or_error
  stating path st r w v e n =
      let no_error : eq_ℤ r minus_one ≡ false = ground (arith, n, eq_ℤ_iff r minus_one) in
      rw (e, no_error) refl

  mode_before-pushstat :
      (st : Stat) (mode : ℕ)
      → st.st_mode ≡ pos mode
      → mode < 2 ^ 64
      → mode_before os (pushstat st) ≡ mode
  unfolding pushstat get_field
  mode_before-pushstat st mode e h = rw e (cast_size_pos mode h)

  asking :
      (path : Bytes) (x : ℕ) (s : ℤ) (v u : Machine W)
      → x < 512
      → os.chmod path x v ≡ (s, u)
      → call_binding (p_chmod os) (string path ∷ integer (pos x) ∷ []) v
        ≡ (ending_of (pushresult s (some path) u).0, (pushresult s (some path) u).1)
  unfolding call_binding p_chmod checkstring checkinteger checknargs
  asking path x s v u h e = rw (cast_uint_pos x (omega arith), e) refl

  -- Where stat succeeds and the text is a mode, as a change of the mode that stat gives: chmod asks
  -- the system for the nine permissions of the result and nothing else. So the bits of setuid,
  -- setgid and sticky are cleared, whatever the text says.
  pub chmod_clears_special_bits :
      (path text : Bytes) (st : Stat) (mode bits : ℕ) (r s : ℤ) (w v u : Machine W)
      → os.stat path w ≡ ((r, st), v)
      → r ≢ minus_one
      → st.st_mode ≡ pos mode
      → mode < 2 ^ 64
      → mode_munch mode text ≡ some bits
      → os.chmod path (bit_and bits rwxall) v ≡ (s, u)
      → (legacy_chmod os path (some text) w
          ≡ (ending_of (pushresult s (some path) u).0, (pushresult s (some path) u).1))
        × (bit_and bits rwxall < 512)
  unfolding legacy_chmod give ◌>>=◌
  chmod_clears_special_bits path text st mode bits r s w v u e n m small k c =
      let below : bit_and bits rwxall < 512 = omega (arith, bit_and-le bits rwxall) in
      (
        rw (stating path st r w v e n, mode_before-pushstat st mode m small, k)
            (asking path (bit_and bits rwxall) s v u below c),
        below,
      )
