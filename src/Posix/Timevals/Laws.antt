-- ===== src/Posix/Timevals/Laws.antt =====
-- lib/posix/init.lua: timeradd, timersub and timercmp together.
use luaposix.Base.{
  Bool-cases, InLong, ap, arith, cast_long, cast_long_id, eq_ℤ, false, if◌then◌else◌, inl, inr, leb,
  minus_one, negsuc, pos, refl, some, suc, ℕ, ℤ, ◌*◌, ◌+ℤ◌, ◌+◌, ◌-ℤ◌, ◌-◌, ◌<ℤ◌, ◌<◌, ◌^◌, ◌∙◌,
  ◌≡◌, ◌≤ℤ◌, ◌≤◌,
}
use luaposix.Lua.{Host, Number, Value, get_entry, int, integer, number, ok, set_field}
use luaposix.Posix.LegacyTime.{lua_table}
use luaposix.Posix.Timevals.{
  Floats, add_numbers, borrow, carry, compared_fields, p_timeradd, p_timercmp, p_timersub, sec_usec,
  table_of, time_fields,
}
use luaposix.Posix.Timevals.Loops.{
  add_numbers-int, borrow-ends, borrow-stops, carry-ends, carry-stops, subtract_numbers-int,
}

plus_zero : (n : ℤ) → n +ℤ pos 0 ≡ n
plus_zero (pos n) = ground arith
plus_zero (negsuc n) = ground arith

zero_plus : (n : ℤ) → pos 0 +ℤ n ≡ n
zero_plus (pos n) = ground arith
zero_plus (negsuc n) = ground arith

abbrev pub IsSmall : ℤ → Type 0
IsSmall z = (negsuc (2 ^ 61) ≤ℤ z) × (z <ℤ pos (2 ^ 61))

small_sum : (a c : ℤ) → IsSmall a → IsSmall c → InLong a × InLong (a +ℤ c)
small_sum (pos m) (pos n) i j = ground arith
small_sum (pos m) (negsuc n) i j = ground arith
small_sum (negsuc m) (pos n) i j = ground arith
small_sum (negsuc m) (negsuc n) i j = ground arith

small_room :
    (a c : ℤ) (fuel : ℕ)
    → IsSmall a
    → IsSmall c
    → fuel < 2 ^ 61
    → a +ℤ c +ℤ pos fuel <ℤ pos (2 ^ 63)
small_room (pos m) (pos n) fuel i j h = ground arith
small_room (pos m) (negsuc n) fuel i j h = ground arith
small_room (negsuc m) (pos n) fuel i j h = ground arith
small_room (negsuc m) (negsuc n) fuel i j h = ground arith

small_carried :
    (a : ℤ) (q fuel : ℕ)
    → IsSmall a
    → fuel < 2 ^ 61
    → q ≤ fuel
    → InLong (a +ℤ pos q) × (negsuc (2 ^ 63 - 1) ≤ℤ a +ℤ pos q -ℤ pos fuel)
small_carried (pos m) q fuel i h k = ground arith
small_carried (negsuc m) q fuel i h k = ground arith

taken_off : (a c : ℤ) (q : ℕ) → a +ℤ c +ℤ pos q -ℤ c ≡ a +ℤ pos q
taken_off (pos m) (pos n) q = ground arith
taken_off (pos m) (negsuc n) q = ground arith
taken_off (negsuc m) (pos n) q = ground arith
taken_off (negsuc m) (negsuc n) q = ground arith

back_again : (a : ℤ) (q : ℕ) → a +ℤ pos q -ℤ pos q ≡ a
back_again (pos m) q = ground arith
back_again (negsuc m) q = ground arith

one_less : (n : ℤ) → (n -ℤ (n +ℤ pos 1) ≡ minus_one) × (eq_ℤ n (n +ℤ pos 1) ≡ false)
one_less (pos n) = ground arith
one_less (negsuc n) = ground arith

module _ ⦃lua : Host⦄ (num : Floats) where
  fields_of-sec_usec : (m n : Number) → time_fields num (sec_usec m n) ≡ ok (m, n)
  unfolding time_fields sec_usec lua_table get_entry set_field
  fields_of-sec_usec m n = refl

  compared_fields-sec_usec :
      (m n : Number) → compared_fields num (sec_usec m n) ≡ ok (number m, number n)
  unfolding compared_fields sec_usec lua_table get_entry set_field
  compared_fields-sec_usec m n = refl

  from_zero : (n : ℤ) → InLong n → add_numbers num (int (pos 0)) (int n) ≡ int n
  unfolding add_numbers
  from_zero n h = ap int (ap cast_long (zero_plus n) ∙ cast_long_id n h)

  pos_plus_pos :
      (b d : ℕ) → b + d < 2 ^ 63 → add_numbers num (int (pos b)) (int (pos d)) ≡ int (pos (b + d))
  pos_plus_pos b d h =
      let e : pos b +ℤ pos d ≡ pos (b + d) = ground arith in
      add_numbers-int num (pos b) (pos d) (ground arith) ∙ ap int e

  timeradd_is :
      (fuel : ℕ) (x y : Value) (a c : ℤ) (b d : ℕ)
      → time_fields num x ≡ ok (int a, int (pos b))
      → time_fields num y ≡ ok (int c, int (pos d))
      → InLong a
      → InLong (a +ℤ c)
      → b + d < 2 ^ 63
      → p_timeradd num fuel x y ≡ ok (table_of (carry num fuel (int (a +ℤ c)) (int (pos (b + d)))))
  unfolding p_timeradd
  timeradd_is fuel x y a c b d e f i j k =
      rw
        (
          e,
          f,
          from_zero a i,
          from_zero (pos b) (omega arith),
          add_numbers-int num a c j,
          pos_plus_pos b d k,
        )
        refl

  timersub_is :
      (fuel : ℕ) (x y : Value) (a c b d : ℤ)
      → time_fields num x ≡ ok (int a, int b)
      → time_fields num y ≡ ok (int c, int d)
      → InLong (a -ℤ c)
      → InLong (b -ℤ d)
      → p_timersub num fuel x y ≡ ok (table_of (borrow num fuel (int (a -ℤ c)) (int (b -ℤ d))))
  unfolding p_timersub
  timersub_is fuel x y a c b d e f i j =
      rw (e, f, subtract_numbers-int num a c i, subtract_numbers-int num b d j) refl

  timercmp_is :
      (x y : Value) (a c : ℤ) (b d : ℤ)
      → compared_fields num x ≡ ok (integer a, integer b)
      → compared_fields num y ≡ ok (integer c, integer d)
      → InLong (a -ℤ c)
      → InLong (b -ℤ d)
      → p_timercmp num x y ≡ ok (integer (if eq_ℤ a c then b -ℤ d else a -ℤ c))
  unfolding p_timercmp
  timercmp_is x y a c b d e f i j = elim (Bool-cases (eq_ℤ a c)) [
    | inl z ↦ rw (e, f, z, subtract_numbers-int num b d j) refl
    | inr z ↦ rw (e, f, z, subtract_numbers-int num a c i) refl
  ]

  -- Where the microseconds make exactly a million, timeradd leaves them, and timercmp takes the sum
  -- for an earlier time than the same time with one second more and no microseconds.
  pub timeradd_keeps_million :
      (fuel : ℕ) (x y : Value) (a c : ℤ) (b d : ℕ)
      → time_fields num x ≡ ok (int a, int (pos b))
      → time_fields num y ≡ ok (int c, int (pos d))
      → InLong a
      → InLong (a +ℤ c)
      → InLong (a +ℤ c +ℤ pos 1)
      → b + d ≡ 1000000
      → (z : Value) × (p_timeradd num (suc fuel) x y ≡ ok (some z))
        × (p_timercmp num z (sec_usec (int (a +ℤ c +ℤ pos 1)) (int (pos 0)))
            ≡ ok (integer minus_one))
  timeradd_keeps_million fuel x y a c b d e f i j k h = (
    sec_usec (int (a +ℤ c)) (int (pos 1000000)),
    timeradd_is (suc fuel) x y a c b d e f i j (omega arith)
        ∙ rw h
            (ap (λ r. ok (table_of r)) (carry-stops num fuel (int (a +ℤ c)) 1000000 (omega arith))),
    timercmp_is _ _ (a +ℤ c) (a +ℤ c +ℤ pos 1) (pos 1000000) (pos 0) (compared_fields-sec_usec _ _)
          (compared_fields-sec_usec _ _) (rw (one_less (a +ℤ c)).0 (omega arith)) (omega arith)
        ∙ rw ((one_less (a +ℤ c)).0, (one_less (a +ℤ c)).1) refl,
  )

  borrowed :
      (fuel : ℕ) (a : ℤ) (b d q r : ℕ)
      → IsSmall a
      → fuel < 2 ^ 61
      → b < 1000000
      → b + d ≡ q * 1000000 + r
      → r ≤ 1000000
      → q ≤ fuel
      → d < 2 ^ 62
      → d < fuel * 1000000
      → borrow num (suc fuel) (int (a +ℤ pos q)) (int (pos r -ℤ pos d)) ≡ some (int a, int (pos b))
  borrowed fuel a b d q r ia g m s t k l n = elim (Bool-cases (leb d r)) [
    | inl enough ↦
        let dr : d ≤ r = ground arith in
        let z : q ≡ 0 = omega arith in
        let v : pos r -ℤ pos d ≡ pos b = ground (arith, z) in
        rw (v, z, plus_zero a) (borrow-stops num fuel (int a) b)
    | inr below ↦
        let rd : r < d = ground arith in
        let v : pos r -ℤ pos d ≡ negsuc (d - r - 1) = ground arith in
        let (ga, gr) = small_carried a q fuel ia g k in
        let (q', r', e, f, c) =
          borrow-ends num fuel (a +ℤ pos q) (d - r - 1) (omega arith) (omega arith) ga gr in
        let qs : q' ≡ q = omega arith in
        let rs : r' ≡ b = omega arith in rw v (e ∙ rw (qs, rs, back_again a q) refl)
  ]

  -- A time y is added to a time x with less than a million microseconds, and taken off again: this
  -- gives x. The sums fit the integers of Lua, and the fuel is enough for the microseconds.
  pub timersub-timeradd :
      (fuel : ℕ) (x y : Value) (a c : ℤ) (b d : ℕ)
      → time_fields num x ≡ ok (int a, int (pos b))
      → time_fields num y ≡ ok (int c, int (pos d))
      → b < 1000000
      → b + d < fuel * 1000000
      → b + d < 2 ^ 62
      → fuel < 2 ^ 61
      → IsSmall a
      → IsSmall c
      → (z : Value) × (p_timeradd num fuel x y ≡ ok (some z))
        × (p_timersub num (suc fuel) z y ≡ ok (some (sec_usec (int a) (int (pos b)))))
  timersub-timeradd fuel x y a c b d e f m h l g ia ic =
      let (ga, gs) = small_sum a c ia ic in
      let (q, r, p, s, t, u) =
        carry-ends num fuel (a +ℤ c) (b + d) h (omega arith) gs (small_room a c fuel ia ic g) in
      (
        sec_usec (int (a +ℤ c +ℤ pos q)) (int (pos r)),
        timeradd_is fuel x y a c b d e f ga gs (omega arith) ∙ ap (λ v. ok (table_of v)) p,
        timersub_is (suc fuel) _ y (a +ℤ c +ℤ pos q) c (pos r) (pos d) (fields_of-sec_usec _ _) f
              (rw (taken_off a c q) (small_carried a q fuel ia g (omega arith)).0) (ground arith)
            ∙ rw (taken_off a c q) (
                ap (λ v. ok (table_of v))
                  (borrowed fuel a b d q r ia g m s t (omega arith) (omega arith) (omega arith))),
      )
