-- ===== src/Helpers/Validation.antt =====
-- Rules for "an error that is raised has changed nothing", one for each way to build a binding.
use luaposix.Base.{Bool, Bytes, Option, false, if◌then◌else◌, refl, true, ℤ, ◌≡◌}
use luaposix.Helpers.Results.{pusherror, pushresult}
use luaposix.Lua.{
  Call, Exec, Host, LuaError, Machine, Outcome, call, err, lift, ok, onward, pure, read_errno,
  write_errno, ◌>>=◌,
}

module _ {W : Type 0} where
  -- raises nothing
  pub record Total {A : Type 0} (m : Exec W A) : Type 0 where
    pub returns : (w : Machine W) → (a : A) × ((m w).0 ≡ ok a)

  -- where it raises, the process is as it was
  pub record Clean {A : Type 0} (m : Exec W A) : Type 0 where
    pub unchanged : (w : Machine W) (e : LuaError) → (m w).0 ≡ err e → (m w).1 ≡ w

module _ {W A : Type 0} where
  pub Total-pure : (a : A) → Total {W = W} (pure a)
  unfolding pure
  Total-pure a = record { returns = λ w. (a, refl) }

  pub Total-call : (c : Call W A) → Total (call c)
  unfolding call
  Total-call c = record { returns = λ w. ((c w).0, refl) }

  pub Total-if : (b : Bool) (m n : Exec W A) → Total m → Total n → Total (if b then m else n)
  Total-if true m n hm hn = hm
  Total-if false m n hm hn = hn

  pub Clean-Total : (m : Exec W A) → Total m → Clean m
  Clean-Total m t = record { unchanged = λ w e h. cc (h, (t.returns w).1) }

  pub Clean-lift : (r : Outcome A) → Clean {W = W} (lift r)
  unfolding lift
  Clean-lift r = record { unchanged = λ w e h. refl }

  pub Clean-if : (b : Bool) (m n : Exec W A) → Clean m → Clean n → Clean (if b then m else n)
  Clean-if true m n hm hn = hm
  Clean-if false m n hm hn = hn

pub Total-read_errno : {W : Type 0} → Total {W = W} read_errno
unfolding read_errno
Total-read_errno = record { returns = λ w. (w.errno, refl) }

pub Total-write_errno : {W : Type 0} (n : ℤ) → Total {W = W} (write_errno n)
unfolding write_errno
Total-write_errno n = record { returns = λ w. (tt, refl) }

module _ {W A B : Type 0} where
  pub Total-bind :
      (m : Exec W A) (f : A → Exec W B) → Total m → ((a : A) → Total (f a)) → Total (m >>= f)
  unfolding ◌>>=◌
  Total-bind m f hm hf = record {
    returns =
        λ w. let (a, e) = hm.returns w in let (b, e') = (hf a).returns (m w).1 in (b, rw e e');
  }

  -- a check comes first, and the rest is clean
  pub Clean-bind :
      (r : Outcome A) (f : A → Exec W B) → ((a : A) → Clean (f a)) → Clean (lift r >>= f)
  unfolding ◌>>=◌
  Clean-bind (ok a) f h = record { unchanged = (h a).unchanged }
  Clean-bind (err e) f h = record { unchanged = λ w e' p. refl }

module _ {W A B : Type 0} where
  -- where only the first part may raise, and is clean
  pub Clean-bind-Total :
      (m : Exec W A) (f : A → Exec W B) → Clean m → ((a : A) → Total (f a)) → Clean (m >>= f)
  unfolding ◌>>=◌
  Clean-bind-Total m f hm hf = record { unchanged = λ w e p. from_outcome w (m w).0 refl e p }
    where
      from_outcome :
          (w : Machine W) (r : Outcome A)
          → (m w).0 ≡ r
          → (e : LuaError) → (onward r f (m w).1).0 ≡ err e
          → (onward r f (m w).1).1 ≡ w
      from_outcome w (ok a) q e p = absurd (cc (p, ((hf a).returns (m w).1).1))
      from_outcome w (err e') q e p = hm.unchanged w e' q

module _ {W : Type 0} ⦃lua : Host⦄ where
  pub Total-pusherror : (info : Option Bytes) → Total {W = W} (pusherror info)
  unfolding pusherror
  Total-pusherror info = Total-bind _ _ Total-read_errno (λ n. Total-pure _)

  pub Total-pushresult : (z : ℤ) (info : Option Bytes) → Total {W = W} (pushresult z info)
  unfolding pushresult
  Total-pushresult z info = Total-if _ _ _ (Total-pusherror info) (Total-pure _)

pub ruleset validation_rules = (
  Total-pure, Total-call, Total-if, Total-read_errno, Total-write_errno, Total-bind,
  Total-pusherror, Total-pushresult, Clean-Total, Clean-lift, Clean-if, Clean-bind,
  Clean-bind-Total,
)
