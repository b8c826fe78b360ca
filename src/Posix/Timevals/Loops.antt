-- ===== src/Posix/Timevals/Loops.antt =====
-- lib/posix/init.lua: the loops of timeradd and timersub.
use luaposix.Base.{
  Bool-cases, InLong, ap, arith, cast_long_id, inl, inr, ltb, negsuc, pos, refl, some, suc, true,
  zero, ℕ, ℤ, ◌*◌, ◌+ℤ◌, ◌+◌, ◌-ℤ◌, ◌-◌, ◌<ℤ◌, ◌<◌, ◌^◌, ◌∙◌, ◌≡◌, ◌≤ℤ◌, ◌≤◌, ◌⊎◌,
}
use luaposix.Lua.{Number, int}
use luaposix.Posix.Timevals.{
  Floats, add_numbers, borrow, carry, is_above_million, is_below_zero, subtract_numbers,
}

up_one :
    (sec : ℤ) (k : ℕ)
    → InLong sec
    → sec +ℤ pos (suc k) <ℤ pos (2 ^ 63)
    → InLong (sec +ℤ pos 1) × (sec +ℤ pos 1 +ℤ pos k <ℤ pos (2 ^ 63))
up_one (pos n) k i h = ground arith
up_one (negsuc n) k i h = ground arith

up_suc : (sec : ℤ) (q : ℕ) → sec +ℤ pos 1 +ℤ pos q ≡ sec +ℤ pos (suc q)
up_suc (pos n) q = ground arith
up_suc (negsuc n) q = ground arith

up_zero : (sec : ℤ) → sec ≡ sec +ℤ pos 0
up_zero (pos n) = ground arith
up_zero (negsuc n) = ground arith

down_one :
    (sec : ℤ) (k : ℕ)
    → InLong sec
    → negsuc (2 ^ 63 - 1) ≤ℤ sec -ℤ pos (suc k)
    → InLong (sec -ℤ pos 1) × (negsuc (2 ^ 63 - 1) ≤ℤ sec -ℤ pos 1 -ℤ pos k)
down_one (pos n) k i h = ground arith
down_one (negsuc n) k i h = ground arith

down_suc : (sec : ℤ) (q : ℕ) → sec -ℤ pos 1 -ℤ pos q ≡ sec -ℤ pos (suc q)
down_suc (pos n) q = ground arith
down_suc (negsuc n) q = ground arith

module _ (num : Floats) where
  pub add_numbers-int : (m n : ℤ) → InLong (m +ℤ n) → add_numbers num (int m) (int n) ≡ int (m +ℤ n)
  unfolding add_numbers
  add_numbers-int m n h = ap int (cast_long_id (m +ℤ n) h)

  pub subtract_numbers-int :
      (m n : ℤ) → InLong (m -ℤ n) → subtract_numbers num (int m) (int n) ≡ int (m -ℤ n)
  unfolding subtract_numbers
  subtract_numbers-int m n h = ap int (cast_long_id (m -ℤ n) h)

  is_above_million-pos : (u : ℕ) → 1000000 < u → is_above_million num (int (pos u)) ≡ true
  unfolding is_above_million
  is_above_million-pos u h = ground arith

  carry-again :
      (fuel : ℕ) (sec : ℤ) (u : ℕ)
      → 1000000 < u
      → u < 2 ^ 63
      → InLong (sec +ℤ pos 1)
      → carry num (suc fuel) (int sec) (int (pos u))
        ≡ carry num fuel (int (sec +ℤ pos 1)) (int (pos (u - 1000000)))
  unfolding carry
  carry-again fuel sec u big l i =
      let more : is_above_million num (int (pos u)) ≡ true = is_above_million-pos u big in
      let less : pos u -ℤ pos 1000000 ≡ pos (u - 1000000) = ground arith in
      rw
        (
          more,
          add_numbers-int sec (pos 1) i,
          subtract_numbers-int (pos u) (pos 1000000) (ground arith),
          less,
        )
        refl

  pub carry-stops :
      (fuel : ℕ) (sec : Number) (u : ℕ)
      → u ≤ 1000000
      → carry num (suc fuel) sec (int (pos u)) ≡ some (sec, int (pos u))
  unfolding carry is_above_million
  carry-stops fuel sec u h = ground arith

  -- The loop leaves at most a million, and a whole million where it was a multiple of it.
  pub carry-ends :
      (fuel : ℕ) (sec : ℤ) (u : ℕ)
      → u < fuel * 1000000
      → u < 2 ^ 63
      → InLong sec
      → sec +ℤ pos fuel <ℤ pos (2 ^ 63)
      → (q : ℕ) × (r : ℕ) × (carry num fuel (int sec) (int (pos u))
          ≡ some (int (sec +ℤ pos q), int (pos r)))
        × (u ≡ q * 1000000 + r)
        × (r ≤ 1000000)
        × ((q ≡ 0) ⊎ (0 < r))
  carry-ends zero sec u h l i k = absurd (omega arith)
  carry-ends (suc fuel) sec u h l i k = elim (Bool-cases (ltb 1000000 u)) [
    | inl big ↦
        let b : 1000000 < u = ground arith in
        let (q, r, e, f, c, d) =
          carry-ends fuel (sec +ℤ pos 1) (u - 1000000) (omega arith) (omega arith)
            (up_one sec fuel i k).0 (up_one sec fuel i k).1 in
        (
          suc q,
          r,
          carry-again fuel sec u b l (up_one sec fuel i k).0 ∙ rw (← up_suc sec q) e,
          omega arith,
          c,
          inr (elim d [ inl z ↦ omega arith | inr z ↦ z ]),
        )
    | inr small ↦
        let c : u ≤ 1000000 = ground arith in
        (
          0,
          u,
          carry-stops fuel (int sec) u c ∙ ap (λ x. some (int x, int (pos u))) (up_zero sec),
          omega arith,
          c,
          inl refl,
        )
  ]

  borrow-again :
      (fuel : ℕ) (sec : ℤ) (n : ℕ)
      → n < 2 ^ 63
      → InLong (sec -ℤ pos 1)
      → borrow num (suc fuel) (int sec) (int (negsuc n))
        ≡ borrow num fuel (int (sec -ℤ pos 1)) (int (negsuc n +ℤ pos 1000000))
  unfolding borrow is_below_zero
  borrow-again fuel sec n l i =
      rw
        (
          subtract_numbers-int sec (pos 1) i,
          add_numbers-int (negsuc n) (pos 1000000) (ground arith),
        )
        refl

  pub borrow-stops :
      (fuel : ℕ) (sec : Number) (u : ℕ)
      → borrow num (suc fuel) sec (int (pos u)) ≡ some (sec, int (pos u))
  unfolding borrow is_below_zero
  borrow-stops fuel sec u = refl

  -- From below zero the loop ends at less than a million.
  pub borrow-ends :
      (fuel : ℕ) (sec : ℤ) (n : ℕ)
      → n < fuel * 1000000
      → n < 2 ^ 63
      → InLong sec
      → negsuc (2 ^ 63 - 1) ≤ℤ sec -ℤ pos fuel
      → (q : ℕ) × (r : ℕ) × (borrow num (suc fuel) (int sec) (int (negsuc n))
          ≡ some (int (sec -ℤ pos q), int (pos r)))
        × (suc n + r ≡ q * 1000000)
        × (r < 1000000)
  borrow-ends zero sec n h l i k = absurd (omega arith)
  borrow-ends (suc fuel) sec n h l i k = elim (Bool-cases (ltb n 1000000)) [
    | inl near ↦
        let c : negsuc n +ℤ pos 1000000 ≡ pos (999999 - n) = ground arith in
        (
          1,
          999999 - n,
          borrow-again (suc fuel) sec n l (down_one sec fuel i k).0
              ∙ rw c (borrow-stops fuel (int (sec -ℤ pos 1)) (999999 - n)),
          ground arith,
          omega arith,
        )
    | inr far ↦
        let b : 1000000 ≤ n = ground arith in
        let c : negsuc n +ℤ pos 1000000 ≡ negsuc (n - 1000000) = ground arith in
        let (q, r, e, f, g) =
          borrow-ends fuel (sec -ℤ pos 1) (n - 1000000) (omega arith) (omega arith)
            (down_one sec fuel i k).0 (down_one sec fuel i k).1 in
        (
          suc q,
          r,
          borrow-again (suc fuel) sec n l (down_one sec fuel i k).0 ∙ rw (c, ← down_suc sec q) e,
          omega arith,
          g,
        )
  ]
