-- ===== src/Users/Passwd.antt =====
-- ext/posix/pwd.c.
use luaposix.Base.{
  Bool, Bytes, List, Option, [], arith, cast_uint, eq_ℤ, eq_ℤ_iff, false, if◌then◌else◌, lit, none,
  not, pos, some, true, ℕ, ◌&&◌, ◌++◌, ◌∷◌, ◌≡◌, ◌≢◌,
}
use luaposix.Helpers.Args.{checkinteger, checknargs, checkstring}
use luaposix.Helpers.Results.{pusherror, typed_table}
use luaposix.Lua.{
  Binding, Call, Exec, Host, Machine, Value, call, integer, lift, nil, ok, pure, read_errno, string,
  write_errno, ◌>>=◌, ◌>>◌,
}

pub record Passwd : Type 0 where
  pub pw_uid : ℕ
  pub pw_gid : ℕ
  -- none is NULL
  pub pw_name : Option Bytes
  pub pw_dir : Option Bytes
  pub pw_shell : Option Bytes
  pub pw_passwd : Option Bytes

pub record PasswdCalls (W : Type 0) : Type 0 where
  pub endpwent : Call W (Unit {0})
  pub getpwent : Call W (Option Passwd)
  pub getpwnam : Bytes → Call W (Option Passwd)
  pub getpwuid : ℕ → Call W (Option Passwd)
  pub setpwent : Call W (Unit {0})

-- pushstringfield: NULL sets no field
abbrev pub optional_field : Bytes → Option Bytes → List (Bytes × Value) → List (Bytes × Value)
optional_field k none fields = fields
optional_field k (some s) fields = (k, string s) ∷ fields

unfoldable pub pushpasswd : Option Passwd → Value
unfolding typed_table
pushpasswd none = nil
pushpasswd (some p) =
    let strings = optional_field (lit "pw_name") p.pw_name (
      optional_field (lit "pw_dir") p.pw_dir (
        optional_field (lit "pw_shell") p.pw_shell
          (optional_field (lit "pw_passwd") p.pw_passwd []))) in
    typed_table (lit "PosixPasswd")
      ((lit "pw_uid", integer (pos p.pw_uid)) ∷ (lit "pw_gid", integer (pos p.pw_gid)) ∷ strings)

abbrev pub is_none {ℓ} : {A : Type ℓ} → Option A → Bool
is_none none = true
is_none (some a) = false

module _ ⦃lua : Host⦄ {W : Type 0} (os : PasswdCalls W) where
  unfoldable pub p_endpwent : Binding W
  unfolding ◌>>=◌ checknargs
  p_endpwent args = do lift (checknargs args 0); call os.endpwent; pure []

  unfoldable pub p_getpwent : Binding W
  unfolding ◌>>=◌ checknargs pushpasswd
  p_getpwent args = do
    lift (checknargs args 0)
    p ← call os.getpwent
    errno ← read_errno
    if is_none p && eq_ℤ errno (pos 0)
        then (do call os.endpwent; pure (pushpasswd p ∷ []))
        else pure (pushpasswd p ∷ [])

  -- the entry, or an error where there is none and errno was set
  unfoldable pub entry_or_error : Bytes → Option Passwd → Exec W (List Value)
  unfolding ◌>>=◌ pusherror pushpasswd
  entry_or_error info p = do
    errno ← read_errno
    if is_none p && not (eq_ℤ errno (pos 0))
        then pusherror (some info)
        else pure (pushpasswd p ∷ [])

  unfoldable pub p_getpwnam : Binding W
  unfolding ◌>>=◌ checkstring checknargs entry_or_error
  p_getpwnam args = do
    name ← lift (checkstring args 1)
    lift (checknargs args 1)
    write_errno (pos 0)
    p ← call (os.getpwnam name)
    entry_or_error (lit "getpwnam") p

  unfoldable pub p_getpwuid : Binding W
  unfolding ◌>>=◌ checkinteger checknargs entry_or_error
  p_getpwuid args = do
    uid ← lift (checkinteger args 1)
    lift (checknargs args 1)
    write_errno (pos 0)
    p ← call (os.getpwuid (cast_uint uid))
    entry_or_error (lit "getpwuid") p

  unfoldable pub p_setpwent : Binding W
  unfolding ◌>>=◌ checknargs
  p_setpwent args = do lift (checknargs args 0); call os.setpwent; pure []

  -- Whatever errno was before: `getpwnam` of a name that no entry has returns nil alone where
  -- errno is 0 after the system's call, and nil, a message and errno where it is not.
  pub getpwnam_without_entry :
      (name : Bytes) (w w' : Machine W)
      → os.getpwnam name (record w { errno = pos 0 }) ≡ (none, w')
      → (w'.errno ≡ pos 0 → p_getpwnam (string name ∷ []) w ≡ (ok (nil ∷ []), w'))
        × (w'.errno ≢ pos 0
            → p_getpwnam (string name ∷ []) w ≡ (
              ok (
                  nil
                  ∷ string (lit "getpwnam" ++ (lit ": " ++ lua.strerror w'.errno))
                  ∷ integer w'.errno
                  ∷ []),
              w',
            ))
  unfolding p_getpwnam
  getpwnam_without_entry name w w' e = (
    λ h. ground (arith, e, h, eq_ℤ_iff w'.errno (pos 0)),
    λ h. ground (arith, e, h, eq_ℤ_iff w'.errno (pos 0)),
  )
