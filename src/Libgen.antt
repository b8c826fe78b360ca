-- ===== src/Libgen.antt =====
-- ext/posix/libgen.c. The C functions may change the copy of the path; the string that they return is
-- pushed before the copy is given back.
use luaposix.Base.{Bytes, List, [], if◌then◌else◌, length, lit, refl, some, until_zero, ℕ, ◌+◌, ◌∷◌}
use luaposix.Helpers.Args.{checknargs, checkstring}
use luaposix.Helpers.Results.{pusherror}
use luaposix.Lua.{Args, Binding, Call, Exec, Host, Value, call, lift, pure, string, ◌>>=◌, ◌>>◌}
use luaposix.Memory.{Allocator, allocate, is_null, release}
use luaposix.Memory.Balance.{
  Accounts, Balanced, Balanced-block, Balanced-check, Balanced-pure, Balanced-pusherror, Quiet,
}

pub record LibgenCalls (W : Type 0) : Type 0 where
  pub basename : Bytes → Call W Bytes
  pub dirname : Bytes → Call W Bytes

module _ ⦃lua : Host⦄ {W : Type 0} (mem : Allocator W) where
  -- from strlen on, with the function that gets the copy
  unfoldable pub part_of_copy : (Bytes → Call W Bytes) → Bytes → Exec W (List Value)
  unfolding ◌>>=◌ pusherror
  part_of_copy part path = do
    let path_len = length (until_zero path) + 1
    b ← allocate mem path_len
    if is_null b
        then pusherror (some (lit "lalloc"))
        else do s ← call (part (until_zero path)); release mem b path_len; pure (string s ∷ [])

  unfoldable pub p_basename : LibgenCalls W → Binding W
  p_basename os args = do
    path ← lift (checkstring args 1)
    lift (checknargs args 1)
    part_of_copy os.basename path

  unfoldable pub p_dirname : LibgenCalls W → Binding W
  p_dirname os args = do
    path ← lift (checkstring args 1)
    lift (checknargs args 1)
    part_of_copy os.dirname path

module _ {W : Type 0} (live : W → List (ℕ × ℕ)) ⦃lua : Host⦄ (os : LibgenCalls W)
    (mem : Allocator W) (law : Accounts live mem) where
  part_of_copy-Balanced :
      (part : Bytes → Call W Bytes) (path : Bytes)
      → Quiet live (part (until_zero path))
      → Balanced live (part_of_copy mem part path)
  unfolding part_of_copy
  part_of_copy-Balanced part path quiet =
      Balanced-block live mem law (length (until_zero path) + 1) (part (until_zero path))
        (pusherror (some (lit "lalloc"))) (λ s. pure (string s ∷ [])) is_null quiet
        (Balanced-pusherror live (some (lit "lalloc"))) (λ s. Balanced-pure live _) (λ p. refl)

  pub p_basename-Balanced :
      (args : Args)
      → ((path : Bytes) → Quiet live (os.basename path))
      → Balanced live (p_basename mem os args)
  unfolding p_basename
  p_basename-Balanced args quiet = Balanced-check live (checkstring args 1) _ λ path.
      Balanced-check live (checknargs args 1) _
        λ u. part_of_copy-Balanced os.basename path (quiet (until_zero path))

  pub p_dirname-Balanced :
      (args : Args)
      → ((path : Bytes) → Quiet live (os.dirname path))
      → Balanced live (p_dirname mem os args)
  unfolding p_dirname
  p_dirname-Balanced args quiet = Balanced-check live (checkstring args 1) _ λ path.
      Balanced-check live (checknargs args 1) _
        λ u. part_of_copy-Balanced os.dirname path (quiet (until_zero path))
