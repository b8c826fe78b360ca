-- ===== src/Errno.antt =====
-- ext/posix/errno.c.
use luaposix.Base.{InInt, [], arith, cast_int_id, ℤ, ◌∷◌, ◌≡◌}
use luaposix.Helpers.Args.{checkint, checknargs, optint}
use luaposix.Lua.{
  Args, Binding, Host, Machine, integer, lift, ok, pure, read_errno, string, write_errno, ◌>>=◌,
  ◌>>◌,
}

module _ ⦃lua : Host⦄ {W : Type 0} where
  unfoldable pub p_errno : Binding W
  unfolding ◌>>=◌ optint checknargs
  p_errno args = do
    errno ← read_errno
    n ← lift (optint args 1 errno)
    lift (checknargs args 1)
    pure (string (lua.strerror n) ∷ integer n ∷ [])

  -- errno is assigned before the number of arguments is checked
  unfoldable pub p_set_errno : Binding W
  unfolding ◌>>=◌ checkint checknargs
  p_set_errno args = do n ← lift (checkint args 1); write_errno n; lift (checknargs args 1); pure []

  -- A call of `set_errno` with an int sets errno to it and changes nothing else, also where it raises
  -- an error since there are more arguments; `errno` then returns its message and the int.
  pub errno_after_set_errno :
      (n : ℤ) (rest : Args) (w : Machine W)
      → InInt n
      → let after = (p_set_errno (integer n ∷ rest) w).1 in
        (after ≡ record w { errno = n })
        × (p_errno [] after ≡ (ok (string (lua.strerror n) ∷ integer n ∷ []), after))
  unfolding p_set_errno p_errno
  errno_after_set_errno n [] w i = ground (arith, cast_int_id n i)
  errno_after_set_errno n (v ∷ rest) w i = ground (arith, cast_int_id n i)
