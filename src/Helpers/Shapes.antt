-- ===== src/Helpers/Shapes.antt =====
-- The types of the values that a binding returns, where it returns: rules, one for each way to build it.
use luaposix.Base.{
  Bool, Bytes, List, Option, [], arith, cast_int, false, if◌then◌else◌, refl, true, ℕ, ℤ, ◌&&◌,
  ◌||◌, ◌∷◌, ◌≡◌,
}
use luaposix.Helpers.Args.{argtypeerror, badoption}
use luaposix.Helpers.Results.{error_message, pusherror, pushintegerresult, pushresult}
use luaposix.Lua.{
  Args, Exec, Host, LuaType, Machine, Outcome, Value, eq_type, err, integer, lift, nil, ok, onward,
  pure, read_errno, string, type_of, ◌>>=◌,
}

abbrev pub Shape : Type 0
Shape = List LuaType

abbrev pub error_shape : Shape
error_shape = LuaType.tnil ∷ LuaType.tstring ∷ LuaType.tnumber ∷ []

abbrev pub has_shape : Shape → List Value → Bool
has_shape [] [] = true
has_shape (ty ∷ shape) (v ∷ vs) = eq_type ty (type_of v) && has_shape shape vs
has_shape _ _ = false

abbrev pub has_one : List Shape → List Value → Bool
has_one [] vs = false
has_one (shape ∷ shapes) vs = has_shape shape vs || has_one shapes vs

module _ {W : Type 0} (shapes : List Shape) where
  pub record Returns (m : Exec W (List Value)) : Type 0 where
    pub fits : (w : Machine W) (vs : List Value) → (m w).0 ≡ ok vs → has_one shapes vs ≡ true

module _ {W : Type 0} {shapes : List Shape} where
  pub Returns-pure : (vs : List Value) → has_one shapes vs ≡ true → Returns {W = W} shapes (pure vs)
  unfolding pure
  Returns-pure vs h = record { fits = λ w us e. ground (arith, h, e) }

  pub Returns-if :
      (b : Bool) (m n : Exec W (List Value))
      → Returns shapes m
      → Returns shapes n
      → Returns shapes (if b then m else n)
  Returns-if true m n hm hn = hm
  Returns-if false m n hm hn = hn

module _ {W A : Type 0} {shapes : List Shape} where
  pub Returns-bind :
      (m : Exec W A) (f : A → Exec W (List Value))
      → ((a : A) → Returns shapes (f a))
      → Returns shapes (m >>= f)
  unfolding ◌>>=◌
  Returns-bind m f h = record { fits = λ w vs e. from_outcome (m w).0 (m w).1 vs e }
    where
      from_outcome :
          (r : Outcome A) (w : Machine W) (vs : List Value)
          → (onward r f w).0 ≡ ok vs
          → has_one shapes vs ≡ true
      from_outcome (ok a) w vs e = (h a).fits w vs e
      from_outcome (err x) w vs e = ground arith

module _ {W : Type 0} {shapes : List Shape} where
  pub Returns-argtypeerror :
      ⦃lua : Host⦄ (args : Args) (i : ℕ) (expected : Bytes)
      → Returns {W = W} shapes (lift (argtypeerror args i expected))
  unfolding argtypeerror lift
  Returns-argtypeerror args i expected = record { fits = λ w vs e. ground arith }

  pub Returns-badoption :
      ⦃lua : Host⦄ (i : ℕ) (what : Bytes) (c : ℕ)
      → Returns {W = W} shapes (lift (badoption i what c))
  unfolding badoption lift
  Returns-badoption i what c = record { fits = λ w vs e. ground arith }

module _ {W : Type 0} {shapes : List Shape} ⦃lua : Host⦄ where
  pub Returns-pusherror :
      (info : Option Bytes) → Returns {W = W} (error_shape ∷ shapes) (pusherror info)
  unfolding pusherror
  Returns-pusherror info =
      Returns-bind read_errno _
        λ n. Returns-pure (nil ∷ string (error_message info n) ∷ integer n ∷ []) refl

pub Returns-pushresult :
    {W : Type 0} ⦃lua : Host⦄ (z : ℤ) (info : Option Bytes)
    → Returns {W = W} (error_shape ∷ (LuaType.tnumber ∷ []) ∷ []) (pushresult z info)
unfolding pushresult pushintegerresult
Returns-pushresult z info =
    Returns-if _ _ _ (Returns-pusherror info) (Returns-pure (integer (cast_int z) ∷ []) refl)

pub Returns-pushintegerresult :
    {W : Type 0} (z : ℤ) → Returns {W = W} ((LuaType.tnumber ∷ []) ∷ []) (pushintegerresult z)
unfolding pushintegerresult
Returns-pushintegerresult z = Returns-pure (integer z ∷ []) refl

pub ruleset result_rules = (
  Returns-pure, Returns-if, Returns-bind, Returns-badoption, Returns-argtypeerror,
  Returns-pusherror, Returns-pushresult, Returns-pushintegerresult, refl,
)
