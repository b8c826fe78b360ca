-- ===== src/Posix/Closing.antt =====
-- lib/posix/init.lua: what a call of close gives to the Lua code.
use luaposix.Base.{
  Bool-cases, InInt, List, [], cast_int, cast_int_id, eq_ℤ, inl, inr, minus_one, refl, ℤ, ◌∷◌, ◌≡◌,
}
use luaposix.Helpers.Args.{checkint, checknargs}
use luaposix.Helpers.Results.{pusherror, pushresult}
use luaposix.Lua.{Host, Machine, Value, integer}
use luaposix.Posix.Script.{call_binding, returned}
use luaposix.Unistd.Calls.{UnistdCalls}
use luaposix.Unistd.Descriptors.{p_close}

module _ ⦃lua : Host⦄ {W : Type 0} (os : UnistdCalls W) where
  pub closing :
      (fd : ℤ) (w : Machine W)
      → InInt fd
      → (results : List Value) × (call_binding (p_close os) (integer fd ∷ []) w
          ≡ (returned results, (os.close fd w).1))
  unfolding call_binding p_close checkint checknargs pushresult pusherror
  closing fd w i =
      rw (cast_int_id fd i) (elim (Bool-cases (eq_ℤ (cast_int (os.close fd w).0) minus_one)) [
        | inl e ↦ rw e (_, refl)
        | inr e ↦ rw e (_, refl)
      ])
