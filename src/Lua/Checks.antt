-- ===== src/Lua/Checks.antt =====
-- Checks that raise or return, with no effect: what runs before a binding's first call.
use luaposix.Base.{refl, ◌≡◌}
use luaposix.Lua.Effects.{Outcome, err, ok}

module _ {ℓ κ} {A : Type ℓ} {B : Type κ} where
  infixl 10 ◌>>=◌ ◌>>◌
  abbrev pub ◌>>=◌ : Outcome A → (A → Outcome B) → Outcome B
  err raised >>= next = err raised
  ok a >>= next = next a

  abbrev pub ◌>>◌ : Outcome A → Outcome B → Outcome B
  check >> next = check >>= λ _. next

  -- A check that went through, and what came of its value.
  pub >>=-eq-ok :
      (check : Outcome A) (next : A → Outcome B) {b : B}
      → (check >>= next) ≡ ok b
      → (a : A) × (check ≡ ok a) × (next a ≡ ok b)
  >>=-eq-ok (err raised) next e = cc
  >>=-eq-ok (ok a) next e = (a, refl, e)
