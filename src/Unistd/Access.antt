-- ===== src/Unistd/Access.antt =====
-- ext/posix/unistd.c: the mode string of Paccess.
use mathlib.Core.Bool.{or-false, or_assoc}
use mathlib.Core.List.{append-nil}
use luaposix.Base.{
  Bool, Bytes, [], ap, arith, false, if◌then◌else◌, lit, refl, some, sym, true, ℕ, ◌&&◌, ◌++◌, ◌+◌,
  ◌==◌, ◌||◌, ◌∙◌, ◌∷◌, ◌≡◌, ◌≢◌,
}
use luaposix.Helpers.Args.{badoption, checknargs, checkstring, optstring}
use luaposix.Helpers.Results.{pushresult}
use luaposix.Lua.{Host, Machine, call, ok, string, ◌>>=◌}
use luaposix.Unistd.Calls.{UnistdCalls}
use luaposix.Unistd.Paths.{access_mode, access_step, p_access}

-- the letters of the switch, and the space
abbrev pub is_letter : ℕ → Bool
is_letter c = c == b' ' || (c == b'r' || (c == b'w' || (c == b'x' || c == b'f')))

abbrev pub all_letters : Bytes → Bool
all_letters [] = true
all_letters (c ∷ s) = is_letter c && all_letters s

abbrev pub has_letter : ℕ → Bytes → Bool
has_letter c [] = false
has_letter c (d ∷ s) = d == c || has_letter c s

-- the three bits of a mode: to read, to write and to execute
abbrev pub bits : Bool → Bool → Bool → ℕ
bits r w x = (if r then 4 else 0) + ((if w then 2 else 0) + (if x then 1 else 0))

module _ {W : Type 0} (os : UnistdCalls W) where
  -- the values of POSIX systems
  pub record UsualModes : Type 0 where
    pub exists : os.f_ok ≡ 0
    pub readable : os.r_ok ≡ 4
    pub writable : os.w_ok ≡ 2
    pub executable : os.x_ok ≡ 1

  module _ ⦃lua : Host⦄ where
    step_bits :
        (r w x : Bool) (c : ℕ)
        → UsualModes
        → is_letter c ≡ true
        → access_step os (bits r w x) c
          ≡ some (bits (r || (c == b'r')) (w || (c == b'w')) (x || (c == b'x')))
    step_bits r w x c u h = rw (u.exists, u.readable, u.writable, u.executable) (ground (arith, h))

    -- the letters at the beginning of a mode string put their bits into the mode
    letters_bits :
        (r w x : Bool) (s rest : Bytes)
        → UsualModes
        → all_letters s ≡ true
        → access_mode os (bits r w x) (s ++ rest)
          ≡ access_mode os
              (bits (r || has_letter b'r' s) (w || has_letter b'w' s) (x || has_letter b'x' s))
              rest
    unfolding access_mode
    letters_bits r w x [] rest u h = rw (or-false r, or-false w, or-false x) refl
    letters_bits r w x (c ∷ s) rest u h =
        rw
          (
            step_bits r w x c u (ground (arith, h)),
            access_mode,
            sym (or_assoc r (c == b'r') (has_letter b'r' s)),
            sym (or_assoc w (c == b'w') (has_letter b'w' s)),
            sym (or_assoc x (c == b'x') (has_letter b'x' s)),
          )
          (letters_bits (r || (c == b'r')) (w || (c == b'w')) (x || (c == b'x')) s rest u
            (ground (arith, h)))

    foreign_refused :
        (mode c : ℕ) (rest : Bytes)
        → is_letter c ≡ false
        → c ≢ 0
        → access_mode os mode (c ∷ rest) ≡ badoption 2 (lit "mode") c
    unfolding access_mode
    foreign_refused mode c rest f z = ground (arith, f, z)

    -- With the usual values of R_OK, W_OK, X_OK and F_OK. For a mode string of the letters r, w, x
    -- and f, and spaces, in any order: `access` asks the system for exactly the permissions whose
    -- letters are in the string. Where another character follows the letters, the call raises an
    -- error about the first of these, and asks for nothing.
    pub access_by_letters :
        (path s rest : Bytes) (c : ℕ) (m : Machine W)
        → UsualModes
        → all_letters s ≡ true
        → is_letter c ≡ false
        → c ≢ 0
        → let asked = bits (has_letter b'r' s) (has_letter b'w' s) (has_letter b'x' s) in
          (p_access os (string path ∷ string s ∷ []) m
            ≡ (call (os.access path asked) >>= λ r. pushresult r (some path)) m)
          × (p_access os (string path ∷ string (s ++ (c ∷ rest)) ∷ []) m
              ≡ (badoption 2 (lit "mode") c, m))
    unfolding p_access checkstring checknargs optstring badoption ◌>>=◌
    access_by_letters path s rest c m u h f z =
        let letters : access_mode os os.f_ok s
            ≡ ok (bits (has_letter b'r' s) (has_letter b'w' s) (has_letter b'x' s)) =
          ap (λ k. access_mode os k s) u.exists
          ∙ ap (access_mode os 0) (sym (append-nil s))
          ∙ letters_bits false false false s [] u h in
        let refused : access_mode os os.f_ok (s ++ (c ∷ rest)) ≡ badoption 2 (lit "mode") c =
          ap (λ k. access_mode os k (s ++ (c ∷ rest))) u.exists
          ∙ letters_bits false false false s (c ∷ rest) u h
          ∙ foreign_refused _ c rest f z in
        rw (letters, refused, ◌>>=◌) (refl, refl)
