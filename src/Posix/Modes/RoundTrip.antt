-- ===== src/Posix/Modes/RoundTrip.antt =====
-- lib/posix/_base.lua and lib/posix/compat.lua: modes that are written as texts and read back.
use luaposix.Base.{
  ==_iff, Bool, Option, ap, arith, bit_and, false, if◌then◌else◌, none, not, refl, some, suc, true,
  zero, ℕ, ◌&&◌, ◌<◌, ◌==◌, ◌||◌, ◌≡◌,
}
use luaposix.Posix.Modes.{has_bit, mode_munch, pushmode, s_isgid, s_isuid, s_ixgrp, s_ixusr}

-- a test at every number under a bound
unfoldable pub passes_under : (ℕ → Bool) → ℕ → Bool
passes_under test zero = true
passes_under test (suc bound) = let lower = passes_under test bound in test bound && lower

pub passes_under-at :
    (test : ℕ → Bool) (bound n : ℕ) → n < bound → passes_under test bound ≡ true → test n ≡ true
unfolding passes_under
passes_under-at test zero n small passed = elim small [ ]
passes_under-at test (suc bound) n small passed = ground (arith, passes_under-at test bound n)

-- no capital S in the text: what is set for the user or the group to run is executable by them
abbrev pub is_legible : ℕ → Bool
is_legible m =
    (not (has_bit m s_isuid) || has_bit m s_ixusr) && (not (has_bit m s_isgid) || has_bit m s_ixgrp)

-- all bits but the sticky bit
abbrev pub without_sticky : ℕ → ℕ
without_sticky m = bit_and m 3583

abbrev expected : ℕ → Option ℕ
expected m = if is_legible m then some (without_sticky m) else none

abbrev same : Option ℕ → Option ℕ → Bool
same none none = true
same none (some n) = false
same (some m) none = false
same (some m) (some n) = m == n

same-eq : (a b : Option ℕ) → same a b ≡ true → a ≡ b
same-eq none none h = refl
same-eq none (some n) h = cc
same-eq (some m) none h = cc
same-eq (some m) (some n) h = ap some ((==_iff m n).0 h)

all_modes :
    (mode : ℕ) → passes_under (λ m. same (mode_munch mode (pushmode m)) (expected m)) 4096 ≡ true
unfolding passes_under mode_munch pushmode
all_modes mode = refl

-- For every mode of twelve bits: its text is read back as the mode without the sticky bit, whatever
-- the mode was that is changed, except where the text has a capital S, which stands for a bit of
-- setuid or setgid without the bit to execute: such a text is refused.
pub pushmode_round_trip :
    (mode m : ℕ)
    → m < 4096
    → mode_munch mode (pushmode m) ≡ (if is_legible m then some (without_sticky m) else none)
pushmode_round_trip mode m h = same-eq _ _ (
    passes_under-at (λ x. same (mode_munch mode (pushmode x)) (expected x)) 4096 m h
      (all_modes mode))
