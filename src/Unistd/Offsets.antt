-- ===== src/Unistd/Offsets.antt =====
-- ext/posix/unistd.c: Plseek hands a file offset of 64 bits to pushresult, which takes an int.
use luaposix.Base.{
  Bool-cases, [], arith, cast_int, eq_ℤ, if◌then◌else◌, inl, inr, ltb, minus_one, none, pos, refl,
  ℕ, ℤ, ◌%◌, ◌-◌, ◌==◌, ◌^◌, ◌∙◌, ◌∷◌, ◌≡◌,
}
use luaposix.Helpers.Results.{pusherror, pushresult}
use luaposix.Lua.{Host, Machine, integer, nil, ok, string}
use luaposix.Unistd.Calls.{UnistdCalls}
use luaposix.Unistd.Descriptors.{p_lseek}

cast_int-eq-minus_one : (n : ℕ) → eq_ℤ (cast_int (pos n)) minus_one ≡ (n % 2 ^ 32 == 2 ^ 32 - 1)
unfolding cast_int
cast_int-eq-minus_one n = ground arith

cast_int_shown : (n : ℕ) → (if ltb n (2 ^ 31) then pos n else cast_int (pos n)) ≡ cast_int (pos n)
unfolding cast_int
cast_int_shown n = ground arith

module _ ⦃lua : Host⦄ {W : Type 0} (os : UnistdCalls W) where
  offset_or_failure :
      (n : ℕ) (w : Machine W)
      → pushresult (pos n) none w ≡ (
        ok (
            if n % 2 ^ 32 == 2 ^ 32 - 1
            then nil ∷ string (lua.strerror w.errno) ∷ integer w.errno ∷ []
            else integer (cast_int (pos n)) ∷ []),
        w,
      )
  unfolding pushresult pusherror
  offset_or_failure n w = elim (Bool-cases (n % 2 ^ 32 == 2 ^ 32 - 1)) [
    | inl ones ↦ rw (cast_int-eq-minus_one n ∙ ones, ones) refl
    | inr other ↦ rw (cast_int-eq-minus_one n ∙ other, other) refl
  ]

  -- Where the system's lseek succeeds with the offset `n`: if n has 32 ones as its low bits, the call
  -- reports a failure, with whatever errno holds; it returns n if that is below 2^31, and else the
  -- int with the low bits of n.
  pub lseek_of_wide_offset :
      (fd offset whence : ℤ) (n : ℕ) (w w' : Machine W)
      → os.lseek (cast_int fd) offset (cast_int whence) w ≡ (pos n, w')
      → p_lseek os (integer fd ∷ integer offset ∷ integer whence ∷ []) w ≡ (
        ok (
            if n % 2 ^ 32 == 2 ^ 32 - 1
            then nil ∷ string (lua.strerror w'.errno) ∷ integer w'.errno ∷ []
            else integer (if ltb n (2 ^ 31) then pos n else cast_int (pos n)) ∷ []),
        w',
      )
  unfolding p_lseek
  lseek_of_wide_offset fd offset whence n w w' e = rw (e, cast_int_shown n) (offset_or_failure n w')
