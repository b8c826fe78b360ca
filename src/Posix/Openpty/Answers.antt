-- ===== src/Posix/Openpty/Answers.antt =====
-- lib/posix/init.lua: what the functions that openpty calls give to it.

-- a failure with its reason, or one value that is true in a test
use luaposix.Base.{
  Bool-cases, Bytes, InInt, List, Option, Option-cases, [], arith, cast_int, cast_int_id, cast_uint,
  eq_ℤ, eq_ℤ_iff, inl, inr, lit, minus_one, none, refl, some, true, ℤ, ◌∷◌, ◌≡◌, ◌≢◌, ◌⊎◌,
}
use luaposix.Fcntl.Bindings.{p_open}
use luaposix.Helpers.Args.{checkint, checknargs, checkstring, optinteger}
use luaposix.Helpers.Results.{pusherror, pushresult, pushstringresult}
use luaposix.Lua.{Host, Machine, Value, integer, nil, ok, string, to_boolean}
use luaposix.Posix.Openpty.{PtyCalls}
use luaposix.Posix.Script.{call_binding, returned}
use luaposix.Stdlib.Bindings.{p_grantpt, p_openpt, p_ptsname, p_unlockpt}

abbrev pub Answer : List Value → Type 0
Answer results =
    ((reason : Value) × (code : Value) × (results ≡ nil ∷ reason ∷ code ∷ []))
    ⊎ ((v : Value) × (results ≡ v ∷ []) × (to_boolean v ≡ true))

module _ ⦃lua : Host⦄ {W : Type 0} where
  pub pushed :
      (z : ℤ) (info : Option Bytes) (w : Machine W)
      → (results : List Value) × (pushresult z info w ≡ (ok results, w))
        × (((reason : Value) × (code : Value) × (results ≡ nil ∷ reason ∷ code ∷ [])
              × (cast_int z ≡ minus_one))
            ⊎ ((results ≡ integer (cast_int z) ∷ []) × (cast_int z ≢ minus_one)))
  unfolding pushresult pusherror
  pushed z info w = elim (Bool-cases (eq_ℤ (cast_int z) minus_one)) [
    | inl e ↦ rw e (_, refl, inl (_, _, refl, ground (arith, e, eq_ℤ_iff (cast_int z) minus_one)))
    | inr e ↦ rw e (_, refl, inr (refl, λ q. ground (arith, e, q, eq_ℤ_iff (cast_int z) minus_one)))
  ]

  pushed-Answer :
      (z : ℤ) (info : Option Bytes) (w : Machine W)
      → (results : List Value) × (pushresult z info w ≡ (ok results, w)) × Answer results
  pushed-Answer z info w =
      let (results, c, split) = pushed z info w in
      elim split [
        | inl (reason, code, e, q) ↦ (results, c, inl (reason, code, e))
        | inr (e, q) ↦ (results, c, inr (integer (cast_int z), e, refl))
      ]

module _ ⦃lua : Host⦄ {W : Type 0} (os : PtyCalls W) where
  pub granting :
      (master : ℤ) (w : Machine W)
      → InInt master
      → (results : List Value) × (call_binding (p_grantpt os.stdlib) (integer master ∷ []) w
          ≡ (returned results, (os.stdlib.grantpt master w).1))
        × Answer results
  unfolding call_binding p_grantpt checkint checknargs
  granting master w i =
      let (results, c, a) =
        pushed-Answer (os.stdlib.grantpt master w).0 (some (lit "grantpt"))
          (os.stdlib.grantpt master w).1 in
      rw (cast_int_id master i, c) (results, refl, a)

  pub unlocking :
      (master : ℤ) (w : Machine W)
      → InInt master
      → (results : List Value) × (call_binding (p_unlockpt os.stdlib) (integer master ∷ []) w
          ≡ (returned results, (os.stdlib.unlockpt master w).1))
        × Answer results
  unfolding call_binding p_unlockpt checkint checknargs
  unlocking master w i =
      let (results, c, a) =
        pushed-Answer (os.stdlib.unlockpt master w).0 (some (lit "unlockpt"))
          (os.stdlib.unlockpt master w).1 in
      rw (cast_int_id master i, c) (results, refl, a)

  abbrev pub master_call : Machine W → ℤ × Machine W
  master_call w = os.stdlib.open_file (lit "/dev/ptmx") (cast_int os.rdwr_noctty) w

  pub opening_master :
      (w : Machine W)
      → InInt (master_call w).0
      → (results : List Value) × (call_binding (p_openpt os.stdlib) (integer os.rdwr_noctty ∷ []) w
          ≡ (returned results, (master_call w).1))
        × (((reason : Value) × (code : Value) × (results ≡ nil ∷ reason ∷ code ∷ [])
              × ((master_call w).0 ≡ minus_one))
            ⊎ ((results ≡ integer (master_call w).0 ∷ []) × ((master_call w).0 ≢ minus_one)))
  unfolding call_binding p_openpt checkint checknargs
  opening_master w i =
      let (results, c, split) = pushed (master_call w).0 none (master_call w).1 in
      let split' = rw (cast_int_id (master_call w).0 i) at split in rw c (results, refl, split')

  abbrev pub slave_call : Bytes → Machine W → ℤ × Machine W
  slave_call name w = os.fcntl.open_file name (cast_int os.rdwr_noctty) 511 w

  pub opening_slave :
      (name : Bytes) (w : Machine W)
      → InInt (slave_call name w).0
      → (results : List Value) × (call_binding
            (p_open os.fcntl)
            (string name ∷ integer os.rdwr_noctty ∷ [])
            w
          ≡ (returned results, (slave_call name w).1))
        × (((reason : Value) × (code : Value) × (results ≡ nil ∷ reason ∷ code ∷ [])
              × ((slave_call name w).0 ≡ minus_one))
            ⊎ ((results ≡ integer (slave_call name w).0 ∷ [])
                × ((slave_call name w).0 ≢ minus_one)))
  unfolding call_binding p_open checkint checkstring checknargs optinteger cast_int cast_uint
  opening_slave name w i =
      let (results, c, split) = pushed (slave_call name w).0 (some name) (slave_call name w).1 in
      let split' = rw (cast_int_id (slave_call name w).0 i) at split in rw c (results, refl, split')

  pub naming :
      (master : ℤ) (w : Machine W)
      → InInt master
      → ((reason : Value) × (code : Value) × (call_binding
              (p_ptsname os.stdlib)
              (integer master ∷ [])
              w
            ≡ (returned (nil ∷ reason ∷ code ∷ []), (os.stdlib.ptsname master w).1)))
        ⊎ ((name : Bytes) × (call_binding (p_ptsname os.stdlib) (integer master ∷ []) w
              ≡ (returned (string name ∷ []), (os.stdlib.ptsname master w).1)))
  unfolding call_binding p_ptsname checkint checknargs pusherror pushstringresult
  naming master w i =
      rw (cast_int_id master i) (elim (Option-cases (os.stdlib.ptsname master w).0) [
        | inl e ↦ inl (rw e (_, _, refl))
        | inr (name, e) ↦ inr (name, rw e refl)
      ])
