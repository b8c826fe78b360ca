-- ===== src/Posix/Modes/Umask.antt =====
-- lib/posix/compat.lua: the mask that umask sets and shows.
use Prim.Native.Nat.{bit_and-bitwise, digits}
use luaposix.Base.{
  ==_iff, Bytes, Option-cases, [], arith, bit_and, cast_size, cast_uint, eq_bytes, false,
  if◌then◌else◌, inl, inr, lit, min, negsuc, none, pos, refl, some, suc, true, zero, ℕ, ℤ, ◌%◌, ◌-◌,
  ◌/◌, ◌<◌, ◌==◌, ◌^◌, ◌∙◌, ◌∷◌, ◌≡◌, ◌≤◌, ◌⊎◌,
}
use luaposix.Helpers.Args.{checkinteger, checknargs}
use luaposix.Helpers.Results.{pushintegerresult}
use luaposix.Lua.{Host, Machine, integer, run_error, string}
use luaposix.Posix.Modes.{bnot, mode_munch, pushmode, rwxall}
use luaposix.Posix.Modes.Functions.{complement, legacy_umask, umask_to}
use luaposix.Posix.Modes.RoundTrip.{passes_under, passes_under-at}
use luaposix.Posix.Script.{call_binding, give, lua_error, returned, thrown, ◌>>=◌}
use luaposix.Sys.Stat.{StatCalls, p_umask}

-- No more bits than in the second number.
digits-le : (n a b : ℕ) → digits (λ c. zero) min n a b ≤ b
digits-le zero a b = omega arith
digits-le (suc n) zero b = omega arith
digits-le (suc n) (suc a) b = omega (arith, digits-le n (suc a / 2) (b / 2))

pub bit_and-le : (a b : ℕ) → bit_and a b ≤ b
bit_and-le a b = omega (arith, bit_and-bitwise a b, digits-le a a b)

complements : passes_under (λ x. bit_and (bnot x) rwxall == 511 - x) 512 ≡ true
unfolding passes_under
complements = refl

complement-eq : (x : ℕ) → x < 512 → bit_and (bnot (cast_size (pos x))) rwxall ≡ 511 - x
unfolding cast_size
complement-eq x h =
    let whole : x % 2 ^ 64 ≡ x = omega arith in
    let checked = passes_under-at (λ y. bit_and (bnot y) rwxall == 511 - y) 512 x h complements in
    rw whole ((==_iff _ _).0 checked)

-- what POSIX promises of umask: of the new mask the permissions count
pub record MasksFiles {W : Type 0} (mask : W → ℕ) (os : StatCalls W) : Type 0 where
  pub below : (k : W) → mask k < 512
  pub returns : (n : ℕ) (w : Machine W) → (os.umask n w).0 ≡ mask w.kernel
  pub sets : (n : ℕ) (w : Machine W) → mask (os.umask n w).1.kernel ≡ n % 512

pub cast_size_pos : (x : ℕ) → x < 2 ^ 64 → cast_size (pos x) ≡ x
unfolding cast_size
cast_size_pos x h = omega arith

-- the mask that `~mode` stands for
mask_of_complement : (x : ℕ) → x < 512 → cast_uint (negsuc x) % 512 ≡ 511 - x
unfolding cast_uint
mask_of_complement x h = omega arith

module _ ⦃lua : Host⦄ {W : Type 0} (mask : W → ℕ) (os : StatCalls W)
    (law : MasksFiles mask os) where
  masking :
      (n : ℤ) (w : Machine W)
      → call_binding (p_umask os) (integer n ∷ []) w
        ≡ (returned (integer (pos (mask w.kernel)) ∷ []), (os.umask (cast_uint n) w).1)
  unfolding call_binding p_umask checkinteger checknargs pushintegerresult
  masking n w = rw (law.returns (cast_uint n) w) refl

  -- the process after the mask was set to 0 and back
  abbrev looked_at : Machine W → Machine W
  looked_at w = (os.umask (cast_uint (pos (mask w.kernel))) (os.umask (cast_uint (pos 0)) w).1).1

  looked_at_same : (w : Machine W) → mask (looked_at w).kernel ≡ mask w.kernel
  unfolding cast_uint
  looked_at_same w =
      let b = law.below w.kernel in
      omega (arith, law.sets (cast_uint (pos (mask w.kernel))) (os.umask (cast_uint (pos 0)) w).1)

  umask_looks :
      (text : Bytes) (w : Machine W)
      → legacy_umask os text w
        ≡ (if eq_bytes text []
              then give (string (pushmode (511 - mask w.kernel)) ∷ [])
              else umask_to os text (mode_munch (511 - mask w.kernel) text))
            (looked_at w)
  unfolding legacy_umask ◌>>=◌
  umask_looks text w =
      rw
        (
          masking (pos 0) w,
          masking (pos (mask w.kernel)) (os.umask (cast_uint (pos 0)) w).1,
          complement-eq (mask w.kernel) (law.below w.kernel),
        )
        refl

  umask_sets :
      (text : Bytes) (x : ℕ) (w : Machine W)
      → x < 512
      → (call_binding (p_umask os) (complement os x ∷ []) w
          ≡ (returned (integer (pos (mask w.kernel)) ∷ []), (os.umask (cast_uint (negsuc x)) w).1))
        × (mask (os.umask (cast_uint (negsuc x)) w).1.kernel ≡ 511 - x)
  umask_sets text x w h =
      (masking (negsuc x) w, law.sets (cast_uint (negsuc x)) w ∙ mask_of_complement x h)

  -- For a text that is not empty. Where it is a mode, as a change of the permissions that the mask
  -- leaves: the call returns the text of its permissions, exactly these are left by the mask, and
  -- a later call without a text returns the same text, not that of the mask before, and leaves the mask as it is. Where it is none: the
  -- call raises an error, and the mask is as it was.
  pub umask_round_trip :
      (text : Bytes) (w : Machine W)
      → eq_bytes text [] ≡ false
      → ((bits : ℕ) × (mode_munch (511 - mask w.kernel) text ≡ some bits)
          × (let m = bit_and bits rwxall in
              (u : Machine W) × (v : Machine W) × (legacy_umask os text w
                ≡ (returned (string (pushmode m) ∷ []), u))
              × (mask u.kernel ≡ 511 - m)
              × (legacy_umask os [] u ≡ (returned (string (pushmode m) ∷ []), v))
              × (mask v.kernel ≡ mask u.kernel)))
        ⊎ ((mode_munch (511 - mask w.kernel) text ≡ none)
            × ((u : Machine W) × (legacy_umask os text w
                  ≡ (thrown (run_error (lit "bad argument #1 to 'umask' (bad mode)")), u))
                × (mask u.kernel ≡ mask w.kernel)))
  unfolding give lua_error ◌>>=◌
  umask_round_trip text w t = elim (Option-cases (mode_munch (511 - mask w.kernel) text)) [
    | inl e ↦ inr (e, (looked_at w, rw (umask_looks text w, t, e) refl, looked_at_same w))
    | inr (ones, e) ↦
        let m = bit_and ones rwxall in
        let small : m < 512 = omega (arith, bit_and-le ones rwxall) in
        let u = (os.umask (cast_uint (negsuc m)) (looked_at w)).1 in
        let s = umask_sets text m (looked_at w) small in
        let back : 511 - (511 - m) ≡ m = omega arith in
        inl (
          ones,
          e,
          (
            u,
            looked_at u,
            rw (umask_looks text w, t, e, s.0) refl,
            s.1,
            rw (umask_looks [] u, s.1, back) refl,
            looked_at_same u,
          ),
        )
  ]
