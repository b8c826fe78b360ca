-- ===== src/Unistd/Balance.antt =====
-- ext/posix/unistd.c: Pread and Pgetcwd, and the blocks that they take.
use luaposix.Base.{
  Bytes, List, Option, [], cast_size, eq_ℤ, if◌then◌else◌, is_negative, lit, ltb, minus_one, none,
  pos, pos_part, refl, some, take, ℕ, ℤ, ◌&&◌, ◌+◌, ◌∷◌,
}
use luaposix.Helpers.Args.{checkint, checkinteger, checknargs}
use luaposix.Helpers.Results.{pusherror}
use luaposix.Lua.{Args, Host, call, pure, string, write_errno}
use luaposix.Memory.{Allocator, is_null}
use luaposix.Memory.Balance.{
  Accounts, Balanced, Balanced-bind, Balanced-block, Balanced-call, Balanced-check, Balanced-if,
  Balanced-pure, Balanced-pusherror, Balanced-write_errno, Quiet,
}
use luaposix.Unistd.Calls.{UnistdCalls}
use luaposix.Unistd.Transfer.{getcwd_block, or_error, p_getcwd, p_read, read_block}

module _ {W : Type 0} (live : W → List (ℕ × ℕ)) ⦃lua : Host⦄ (os : UnistdCalls W) where
  or_error-Balanced : (r : Option Bytes) → Balanced live (or_error os r)
  or_error-Balanced none = Balanced-pusherror live _
  or_error-Balanced (some cwd) = Balanced-pure live _

module _ {W : Type 0} (live : W → List (ℕ × ℕ)) ⦃lua : Host⦄ (os : UnistdCalls W)
    (mem : Allocator W) (law : Accounts live mem) where
  read_block-Balanced :
      (fd : ℤ) (count : ℕ)
      → Quiet live (os.read fd count)
      → Balanced live (read_block os mem fd count)
  unfolding read_block
  read_block-Balanced fd count quiet =
      Balanced-bind live (write_errno (pos 0)) _ (Balanced-write_errno live (pos 0)) λ v.
        Balanced-block live mem law count (os.read fd count) (pusherror (some (lit "lalloc")))
          (λ t.
            if is_negative t.0
            then pusherror none
            else pure (string (take (pos_part t.0) t.1) ∷ []))
          (λ b. is_null b && ltb 0 count) quiet (Balanced-pusherror live (some (lit "lalloc")))
          (λ t.
            Balanced-if live (is_negative t.0) (pusherror none)
              (pure (string (take (pos_part t.0) t.1) ∷ [])) (Balanced-pusherror live none)
              (Balanced-pure live _))
          (λ p. refl)

  -- However a call of `read` ends, in an error of its arguments, of the allocator or of the
  -- system, or in a string, the blocks that are out are those that were out before, where the
  -- allocator keeps its ledger and the system's read leaves it alone.
  pub p_read-Balanced :
      (args : Args)
      → ((fd : ℤ) (n : ℕ) → Quiet live (os.read fd n))
      → Balanced live (p_read os mem args)
  unfolding p_read
  p_read-Balanced args quiet = Balanced-check live (checkint args 1) _ λ fd.
      Balanced-check live (checkinteger args 2) _ λ count.
        Balanced-check live (checknargs args 2) _
          λ u. read_block-Balanced fd (cast_size count) (quiet fd (cast_size count))

  getcwd_block-Balanced :
      (size : ℕ) → Quiet live (os.getcwd size) → Balanced live (getcwd_block os mem size)
  unfolding getcwd_block
  getcwd_block-Balanced size quiet =
      Balanced-block live mem law (size + 1) (os.getcwd size) (pusherror (some (lit "lalloc")))
        (or_error os) is_null quiet (Balanced-pusherror live (some (lit "lalloc")))
        (or_error-Balanced live os) (λ p. refl)

  -- However a call of `getcwd` ends, the blocks that are out are those that were out before, where
  -- the allocator keeps its ledger and pathconf and the system's getcwd leave it alone.
  pub p_getcwd-Balanced :
      (args : Args)
      → ((path : Bytes) (name : ℤ) → Quiet live (os.pathconf path name))
      → ((n : ℕ) → Quiet live (os.getcwd n))
      → Balanced live (p_getcwd os mem args)
  unfolding p_getcwd
  p_getcwd-Balanced args quiet_conf quiet =
      Balanced-bind live (call (os.pathconf (lit ".") os.pc_path_max)) _
        (Balanced-call live (os.pathconf (lit ".") os.pc_path_max)
          (quiet_conf (lit ".") os.pc_path_max))
        λ n. Balanced-check live (checknargs args 0) _ λ u.
          let size = if eq_ℤ n minus_one then os.posix_path_max else cast_size n in
          getcwd_block-Balanced size (quiet size)
