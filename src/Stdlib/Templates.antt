-- ===== src/Stdlib/Templates.antt =====
-- ext/posix/stdlib.c: Pmkdtemp and Pmkstemp, which work on a copy of the template in a block.
use luaposix.Base.{
  Bytes, List, Option, [], eq_ℤ, if◌then◌else◌, length, lit, minus_one, none, refl, some,
  until_zero, ℕ, ℤ, ◌+◌, ◌∷◌,
}
use luaposix.Helpers.Args.{checknargs, checkstring}
use luaposix.Helpers.Results.{pusherror}
use luaposix.Lua.{
  Args, Binding, Call, Exec, Host, Value, call, integer, lift, pure, string, ◌>>=◌, ◌>>◌,
}
use luaposix.Memory.{Allocator, allocate, is_null, release}
use luaposix.Memory.Balance.{
  Accounts, Balanced, Balanced-block, Balanced-check, Balanced-if, Balanced-pure,
  Balanced-pusherror, Quiet,
}

pub record TemplateCalls (W : Type 0) : Type 0 where
  -- the template as it is after the call; none where mkdtemp returns NULL
  pub mkdtemp : Bytes → Call W (Option Bytes)
  pub mkstemp : Bytes → Call W (ℤ × Bytes)

module _ ⦃lua : Host⦄ {W : Type 0} (os : TemplateCalls W) (mem : Allocator W) where
  abbrev pub made_directory : Bytes → Option Bytes → Exec W (List Value)
  made_directory path none = pusherror (some path)
  made_directory path (some name) = pure (string name ∷ [])

  -- from the allocation on
  unfoldable pub mkdtemp_block : Bytes → Exec W (List Value)
  unfolding ◌>>=◌ pusherror
  mkdtemp_block path = do
    let path_len = length (until_zero path) + 1
    tmppath ← allocate mem path_len
    if is_null tmppath then pusherror (some (lit "lalloc")) else do
      r ← call (os.mkdtemp (until_zero path))
      release mem tmppath path_len
      made_directory path r

  unfoldable pub p_mkdtemp : Binding W
  p_mkdtemp args = do path ← lift (checkstring args 1); lift (checknargs args 1); mkdtemp_block path

  abbrev pub made_file : Bytes → ℤ × Bytes → Exec W (List Value)
  made_file path (r, name) =
      if eq_ℤ r minus_one then pusherror (some path) else pure (integer r ∷ string name ∷ [])

  -- from the allocation on
  unfoldable pub mkstemp_block : Bytes → Exec W (List Value)
  unfolding ◌>>=◌ pusherror
  mkstemp_block path = do
    let path_len = length (until_zero path) + 1
    tmppath ← allocate mem path_len
    if is_null tmppath then pusherror (some (lit "lalloc")) else do
      r ← call (os.mkstemp (until_zero path))
      release mem tmppath path_len
      made_file path r

  unfoldable pub p_mkstemp : Binding W
  p_mkstemp args = do path ← lift (checkstring args 1); lift (checknargs args 1); mkstemp_block path

module _ {W : Type 0} (live : W → List (ℕ × ℕ)) ⦃lua : Host⦄ (os : TemplateCalls W)
    (mem : Allocator W) (law : Accounts live mem) where
  made_directory-Balanced :
      (path : Bytes) (r : Option Bytes) → Balanced live (made_directory os mem path r)
  made_directory-Balanced path none = Balanced-pusherror live (some path)
  made_directory-Balanced path (some name) = Balanced-pure live _

  made_file-Balanced : (path : Bytes) (r : ℤ × Bytes) → Balanced live (made_file os mem path r)
  made_file-Balanced path (r, name) =
      Balanced-if live (eq_ℤ r minus_one) (pusherror (some path)) (pure _)
        (Balanced-pusherror live (some path)) (Balanced-pure live _)

  mkdtemp_block-Balanced :
      (path : Bytes)
      → Quiet live (os.mkdtemp (until_zero path))
      → Balanced live (mkdtemp_block os mem path)
  unfolding mkdtemp_block
  mkdtemp_block-Balanced path quiet =
      Balanced-block live mem law (length (until_zero path) + 1) (os.mkdtemp (until_zero path))
        (pusherror (some (lit "lalloc"))) (made_directory os mem path) is_null quiet
        (Balanced-pusherror live (some (lit "lalloc"))) (made_directory-Balanced path) (λ p. refl)

  mkstemp_block-Balanced :
      (path : Bytes)
      → Quiet live (os.mkstemp (until_zero path))
      → Balanced live (mkstemp_block os mem path)
  unfolding mkstemp_block
  mkstemp_block-Balanced path quiet =
      Balanced-block live mem law (length (until_zero path) + 1) (os.mkstemp (until_zero path))
        (pusherror (some (lit "lalloc"))) (made_file os mem path) is_null quiet
        (Balanced-pusherror live (some (lit "lalloc"))) (made_file-Balanced path) (λ p. refl)

  -- The blocks that are out after a call of `mkdtemp`, and after one of `mkstemp`, are those that
  -- were out before, however it ends, where the allocator keeps its ledger and the system's
  -- functions leave it alone.
  pub templates-Balanced :
      (args : Args)
      → ((template : Bytes) → Quiet live (os.mkdtemp template))
      → ((template : Bytes) → Quiet live (os.mkstemp template))
      → Balanced live (p_mkdtemp os mem args) × Balanced live (p_mkstemp os mem args)
  unfolding p_mkdtemp p_mkstemp
  templates-Balanced args quiet_dir quiet_file = (
    Balanced-check live (checkstring args 1) _ λ path.
        Balanced-check live (checknargs args 1) _
          λ u. mkdtemp_block-Balanced path (quiet_dir (until_zero path)),
    Balanced-check live (checkstring args 1) _ λ path.
        Balanced-check live (checknargs args 1) _
          λ u. mkstemp_block-Balanced path (quiet_file (until_zero path)),
  )
