-- ===== src/Tests/Kernel.antt =====
-- A small system with descriptors and children.
pub mod Laws
use luaposix.Base.{
  Bool, List, Option, [], eq_ℤ, false, if◌then◌else◌, length, ltb, minus_one, negsuc, none, not,
  pos, some, suc, true, ℕ, ℤ, ◌&&◌, ◌+◌, ◌==◌, ◌∷◌,
}
use luaposix.Lua.{Machine}
use luaposix.Posix.Pipelines.{counted}
use luaposix.Posix.Processes.{ProcessCalls}
use luaposix.Tests.Fixtures.{calm_unistd}
use luaposix.Unistd.Calls.{UnistdCalls}

pub record Proc : Type 0 where
  pub table : List (ℕ × ℕ)
  pub kids : List ℕ
  -- fork comes back in the child, or fails
  pub is_child : Bool
  pub is_full : Bool

abbrev pub fd_lookup : ℕ → List (ℕ × ℕ) → Option ℕ
fd_lookup m [] = none
fd_lookup m ((a, f) ∷ t) = if m == a then some f else fd_lookup m t

abbrev pub above : List (ℕ × ℕ) → ℕ
above [] = 0
above ((a, f) ∷ t) = let b = above t in if ltb a b then b else a + 1

abbrev pub without_fd : ℕ → List (ℕ × ℕ) → List (ℕ × ℕ)
without_fd m [] = []
without_fd m ((a, f) ∷ t) = let rest = without_fd m t in if m == a then rest else (a, f) ∷ rest

abbrev pub without_kid : ℤ → List ℕ → List ℕ
without_kid z [] = []
without_kid z (p ∷ ps) =
    let rest = without_kid z ps in if eq_ℤ z (pos (suc p)) then ps else p ∷ rest

abbrev pub files_of : Proc → ℤ → Option ℕ
files_of k (pos m) = fd_lookup m k.table
files_of k (negsuc m) = none

abbrev pub children_of : Proc → ℤ → ℕ
children_of k n = counted k.kids n

abbrev pub make_pipe : Machine Proc → (ℤ × ℤ × ℤ) × Machine Proc
make_pipe w =
    let r = above w.kernel.table in
    if ltb (r + 1) 1000
    then (
      (pos 0, pos r, pos (r + 1)),
      record w { kernel = record w.kernel { table = (r, 10) ∷ (r + 1, 11) ∷ w.kernel.table } },
    )
    else ((minus_one, minus_one, minus_one), w)

abbrev pub close_one : ℤ → Machine Proc → ℤ × Machine Proc
close_one (pos m) w =
    (pos 0, record w { kernel = record w.kernel { table = without_fd m w.kernel.table } })
close_one (negsuc m) w = (minus_one, w)

abbrev pub put_fd : ℤ → Option ℕ → Machine Proc → ℤ × Machine Proc
put_fd (pos m) (some f) w =
    (pos m, record w { kernel = record w.kernel { table = (m, f) ∷ w.kernel.table } })
put_fd _ _ w = (minus_one, w)

abbrev pub dup_onto : ℤ → ℤ → Machine Proc → ℤ × Machine Proc
dup_onto a b w = put_fd b (files_of w.kernel a) w

abbrev pub fork_one : Machine Proc → ℤ × Machine Proc
fork_one w =
    let p = length w.kernel.kids in
    if w.kernel.is_child
    then (pos 0, w)
    else if not w.kernel.is_full && ltb p 1000
    then (pos (suc p), record w { kernel = record w.kernel { kids = p ∷ w.kernel.kids } })
    else (minus_one, w)

abbrev pub small_unistd : UnistdCalls Proc
small_unistd = record calm_unistd {
  pipe = make_pipe;
  close = close_one;
  dup2 = dup_onto;
  fork = fork_one;
}

abbrev pub small_system : ProcessCalls Proc
small_system = record {
  unistd = small_unistd;
  waiting = record {
    waitpid = λ pid options w. (
      (pid, pos 0),
      record w { kernel = record w.kernel { kids = without_kid pid w.kernel.kids } },
    );
    wifexited = λ status. true;
    wexitstatus = λ status. status;
    wifsignaled = λ status. false;
    wtermsig = λ status. pos 0;
    wifstopped = λ status. false;
    wstopsig = λ status. pos 0;
  };
  os_exit = λ code w. w;
  is_replaced = λ k. false;
}
