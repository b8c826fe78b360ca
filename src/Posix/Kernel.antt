-- ===== src/Posix/Kernel.antt =====
-- What the system promises of the descriptors and the children of a process, for lib/posix.
use luaposix.Base.{
  InInt, List, Option, [], eq_ℤ, false, if◌then◌else◌, minus_one, none, pos, some, suc, ℕ, ℤ, ◌+◌,
  ◌<◌, ◌∷◌, ◌≡◌, ◌≤ℤ◌,
}
use luaposix.Lua.{Machine, Value, int, number}
use luaposix.Posix.Processes.{ProcessCalls}

pub record IsPipe (before after : ℤ → Option ℕ) (reader writer : ℤ) : Type 0 where
  pub reader_fits : InInt reader
  pub writer_fits : InInt writer
  pub apart : eq_ℤ reader writer ≡ false
  pub reader_free : before reader ≡ none
  pub writer_free : before writer ≡ none
  pub reads : ℕ
  pub writes : ℕ
  pub opened :
      (n : ℤ)
      → after n
        ≡ (if eq_ℤ n reader then some reads else if eq_ℤ n writer then some writes else before n)

abbrev pub one_at : ℤ → ℤ → ℕ
one_at p n = if eq_ℤ n p then 1 else 0

-- `files` gives for a descriptor the file that it is open on, and `children` how many children with
-- a pid there are that were not waited for.
module _ {W : Type 0} (files : W → ℤ → Option ℕ) (children : W → ℤ → ℕ) where
  pub record Keeps (os : ProcessCalls W) : Type 0 where
    pub piped :
        (reader writer : ℤ) (rc : ℕ) (w w' : Machine W)
        → os.unistd.pipe w ≡ ((pos rc, reader, writer), w')
        → IsPipe (files w.kernel) (files w'.kernel) reader writer
    pub pipe_children :
        (n : ℤ) (w : Machine W) → children (os.unistd.pipe w).1.kernel n ≡ children w.kernel n
    -- a close that reports an error has closed the descriptor too
    pub closed :
        (fd n : ℤ) (w : Machine W)
        → files (os.unistd.close fd w).1.kernel n ≡ (if eq_ℤ n fd then none else files w.kernel n)
    pub close_children :
        (fd n : ℤ) (w : Machine W)
        → children (os.unistd.close fd w).1.kernel n ≡ children w.kernel n
    -- on a descriptor that is open itself
    pub duplicated :
        (fd newfd : ℤ) (f g : ℕ) (w : Machine W)
        → files w.kernel fd ≡ some f
        → files w.kernel newfd ≡ some g
        → ((os.unistd.dup2 fd newfd w).0 ≡ newfd)
          × ((n : ℤ)
              → files (os.unistd.dup2 fd newfd w).1.kernel n
                ≡ (if eq_ℤ n newfd then some f else files w.kernel n))
    -- the descriptors of the child are those of the parent
    pub fork_files :
        (n : ℤ) (w : Machine W) → files (os.unistd.fork w).1.kernel n ≡ files w.kernel n
    pub fork_fits :
        (w : Machine W) → InInt (os.unistd.fork w).0 × (minus_one ≤ℤ (os.unistd.fork w).0)
    pub fork_children :
        (n : ℤ) (p : ℕ) (w : Machine W)
        → (os.unistd.fork w).0 ≡ pos (suc p)
        → children (os.unistd.fork w).1.kernel n ≡ one_at (pos (suc p)) n + children w.kernel n
    pub wait_files :
        (pid n : ℤ) (w : Machine W)
        → files (os.waiting.waitpid pid (pos 0) w).1.kernel n ≡ files w.kernel n
    -- a wait that gives the pid of a child that is there has reaped it; one that a signal interrupts
    -- gives -1
    pub wait_children :
        (n : ℤ) (p : ℕ) (w : Machine W)
        → (os.waiting.waitpid (pos (suc p)) (pos 0) w).0.0 ≡ pos (suc p)
        → 0 < children w.kernel (pos (suc p))
        → one_at (pos (suc p)) n + children (os.waiting.waitpid (pos (suc p)) (pos 0) w).1.kernel n
          ≡ children w.kernel n

-- each wait for one of these pids, one after the other, gives the pid
abbrev pub WaitsOut : {W : Type 0} → ProcessCalls W → List Value → Machine W → Type 0
WaitsOut os [] w = Unit {0}
WaitsOut os (number (int pid) ∷ pids) w =
    ((os.waiting.waitpid pid (pos 0) w).0.0 ≡ pid)
    × WaitsOut os pids (os.waiting.waitpid pid (pos 0) w).1
WaitsOut os (v ∷ pids) w = WaitsOut os pids w
