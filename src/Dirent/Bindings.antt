-- ===== src/Dirent/Bindings.antt =====
-- ext/posix/dirent.c: Pdir, which reads a whole directory, and Pfiles, which makes an iterator.
use luaposix.Base.{Bytes, List, Option, [], lit, none, pos, some, suc, zero, ℕ, ℤ, ◌++◌, ◌∷◌}
use luaposix.Helpers.Args.{argerror, checknargs, optstring}
use luaposix.Lua.{
  Args, Call, Exec, Host, Machine, Outcome, Table, Value, call, empty, entry, integer, lift, pure,
  read_errno, string, ◌>>=◌, ◌>>◌,
}

pub record DirCalls (W : Type 0) : Type 0 where
  -- none is NULL
  pub opendir : Bytes → Call W (Option ℕ)
  pub readdir : ℕ → Call W (Option Bytes)
  pub closedir : ℕ → Call W (Unit {0})

-- optstring with a default that is no NULL
abbrev pub path_or_dot : Option Bytes → Bytes
path_or_dot none = lit "."
path_or_dot (some s) = s

-- one turn of the loop: what readdir found, and what the turns after it give
abbrev pub listed :
    {W : Type 0}
    → ℕ
    → Option Bytes
    → Machine W
    → Option Table × Machine W
    → Option Table × Machine W
listed i none w' rest = (some empty, w')
listed i (some name) w' (none, w'') = (none, w'')
listed i (some name) w' (some t, w'') = (some (entry (integer (pos i)) (string name) t), w'')

module _ ⦃lua : Host⦄ {W : Type 0} (os : DirCalls W) where
  -- the error of a directory that does not open
  unfoldable pub not_opened {ℓ} : {A : Type ℓ} → Bytes → ℤ → Outcome A
  not_opened path errno = argerror 1 (path ++ (lit ": " ++ lua.strerror errno))

  -- the loop over readdir, with fuel: the entries from index `i` on, none where the fuel runs out
  unfoldable pub read_entries : ℕ → ℕ → ℕ → Call W (Option Table)
  read_entries zero d i w = (none, w)
  read_entries (suc fuel) d i w =
      let (found, w') = os.readdir d w in listed i found w' (read_entries fuel d (suc i) w')

  -- from the test of opendir's result on; an absent table is one that the fuel did not reach
  unfoldable pub list_directory : ℕ → Bytes → Option ℕ → Exec W (Option Table)
  unfolding ◌>>=◌ not_opened read_entries
  list_directory fuel path none = do errno ← read_errno; lift (not_opened path errno)
  list_directory fuel path (some d) = do
    t ← call (read_entries fuel d 1)
    call (os.closedir d)
    pure t

  unfoldable pub p_dir : ℕ → Args → Exec W (Option Table)
  unfolding optstring checknargs
  p_dir fuel args = do
    path ← lift (optstring args 1 (some (lit ".")))
    lift (checknargs args 1)
    d ← call (os.opendir (path_or_dot path))
    list_directory fuel (path_or_dot path) d

  -- The iterator's upvalue, a handle or NULL, is passed in and handed back.
  unfoldable pub next_entry : ℕ → Option Bytes → Exec W (List Value × Option ℕ)
  unfolding ◌>>=◌
  next_entry d none = do call (os.closedir d); pure ([], none)
  next_entry d (some name) = pure (string name ∷ [], some d)

  unfoldable pub aux_files : Option ℕ → Exec W (List Value × Option ℕ)
  unfolding ◌>>=◌ next_entry
  aux_files none = pure ([], none)
  aux_files (some d) = call (os.readdir d) >>= next_entry d

  unfoldable pub dir_gc : Option ℕ → Exec W (List Value)
  unfolding ◌>>=◌
  dir_gc none = pure []
  dir_gc (some d) = do call (os.closedir d); pure []

  unfoldable pub iterator_of : Bytes → Option ℕ → Exec W ℕ
  unfolding ◌>>=◌ not_opened
  iterator_of path none = do errno ← read_errno; lift (not_opened path errno)
  iterator_of path (some d) = pure d

  -- the handle that the new iterator has as its upvalue
  unfoldable pub p_files : Args → Exec W ℕ
  unfolding optstring checknargs
  p_files args = do
    path ← lift (optstring args 1 (some (lit ".")))
    lift (checknargs args 1)
    d ← call (os.opendir (path_or_dot path))
    iterator_of (path_or_dot path) d
