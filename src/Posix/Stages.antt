-- ===== src/Posix/Stages.antt =====
-- lib/posix/init.lua: the descriptors with which the task of a child runs.
pub mod Child
use luaposix.Base.{
  InInt, List, Option, [], arith, cast_int_id, eq_ℤ, false, if◌then◌else◌, none, pos, refl, some, ℕ,
  ℤ, ◌∙◌, ◌∷◌, ◌≡◌,
}
use luaposix.Helpers.Args.{checkint, checknargs}
use luaposix.Helpers.Results.{pushresult}
use luaposix.Lua.{Host, Machine, Value, integer}
use luaposix.Posix.Children.{>>=_assoc, >>=_returned, p_execx-absorbs}
use luaposix.Posix.Closing.{closing}
use luaposix.Posix.Kernel.{Keeps}
use luaposix.Posix.Parent.{forking}
use luaposix.Posix.Processes.{
  Pipeline, ProcessCalls, Task, move_fd, p_execx, run_child, stage, start_task,
}
use luaposix.Posix.Script.{call_binding, returned, ◌>>=◌}
use luaposix.Unistd.Descriptors.{p_dup2}

module _ ⦃lua : Host⦄ {W : Type 0} (files : W → ℤ → Option ℕ) (children : W → ℤ → ℕ)
    (os : ProcessCalls W) (law : Keeps files children os) where
  abbrev pub moved : ℤ → ℤ → Machine W → Machine W
  moved fd to w = (os.unistd.close fd (os.unistd.dup2 fd to w).1).1

  duplicating :
      (fd : ℤ) (k : ℕ) (w : Machine W)
      → InInt fd
      → InInt (pos k)
      → (os.unistd.dup2 fd (pos k) w).0 ≡ pos k
      → call_binding (p_dup2 os.unistd) (integer fd ∷ integer (pos k) ∷ []) w
        ≡ (returned (integer (pos k) ∷ []), (os.unistd.dup2 fd (pos k) w).1)
  unfolding call_binding p_dup2 checkint checknargs pushresult
  duplicating fd k w i j e =
      rw (cast_int_id fd i, cast_int_id (pos k) j, e, cast_int_id (pos k) j) refl

  moving :
      (fd : ℤ) (k f g : ℕ) (w : Machine W)
      → InInt fd
      → InInt (pos k)
      → eq_ℤ fd (pos k) ≡ false
      → files w.kernel fd ≡ some f
      → files w.kernel (pos k) ≡ some g
      → (results : List Value) × (move_fd os (integer fd) (integer (pos k)) w
          ≡ (returned results, moved fd (pos k) w))
  unfolding move_fd ◌>>=◌
  moving fd k f g w i j e a b =
      let (results, c) = closing os.unistd fd (os.unistd.dup2 fd (pos k) w).1 i in
      (results, rw (e, duplicating fd k w i j (law.duplicated fd (pos k) f g w a b).0) c)

  pub moved_files :
      (fd : ℤ) (k f g : ℕ) (w : Machine W) (n : ℤ)
      → files w.kernel fd ≡ some f
      → files w.kernel (pos k) ≡ some g
      → files (moved fd (pos k) w).kernel n
        ≡ (if eq_ℤ n fd then none else if eq_ℤ n (pos k) then some f else files w.kernel n)
  moved_files fd k f g w n a b = ground (
    arith,
    law.closed fd n (os.unistd.dup2 fd (pos k) w).1,
    (law.duplicated fd (pos k) f g w a b).1 n,
  )

  run_child_runs :
      (A : Type 0) (task : Task W) (parent_fd child_fd : ℤ) (i o f g : ℕ) (w : Machine W)
      → InInt parent_fd
      → InInt child_fd
      → InInt (pos o)
      → eq_ℤ child_fd (pos o) ≡ false
      → files w.kernel child_fd ≡ some f
      → files w.kernel (pos o) ≡ some g
      → run_child os {A = A} task
          (integer parent_fd)
          (integer child_fd)
          (integer (pos i))
          (integer (pos o))
          w
        ≡ p_execx os task
            (integer child_fd ∷ integer (pos i) ∷ integer (pos o) ∷ [])
            (os.unistd.close parent_fd (moved child_fd (pos o) w)).1
  unfolding run_child ◌>>=◌
  run_child_runs A task parent_fd child_fd i o f g w pi ci oi e a b =
      rw
        (
          (moving child_fd o f g w ci oi e a b).1,
          (closing os.unistd parent_fd (moved child_fd (pos o) w) pi).1,
        )
        refl

  pub start_child :
      (task : Task W) (parent_fd child_fd : ℤ) (i o f g : ℕ) (w u : Machine W)
      → InInt parent_fd
      → InInt child_fd
      → InInt (pos o)
      → eq_ℤ child_fd (pos o) ≡ false
      → files w.kernel child_fd ≡ some f
      → files w.kernel (pos o) ≡ some g
      → os.unistd.fork w ≡ (pos 0, u)
      → start_task os task
          (integer parent_fd)
          (integer child_fd)
          (integer (pos i))
          (integer (pos o))
          w
        ≡ p_execx os task
            (integer child_fd ∷ integer (pos i) ∷ integer (pos o) ∷ [])
            (os.unistd.close parent_fd (moved child_fd (pos o) u)).1
  unfolding start_task ◌>>=◌
  start_child task parent_fd child_fd i o f g w u pi ci oi e a b k =
      let kernel_is : (os.unistd.fork w).1 ≡ u = cc in
      rw
        (
          forking os (pos 0) w u k (omega arith),
          run_child_runs (List Value) task parent_fd child_fd i o f g u pi ci oi e
              (rw (← kernel_is) (law.fork_files child_fd w ∙ a))
              (rw (← kernel_is) (law.fork_files (pos o) w ∙ b)),
        )
        (p_execx-absorbs os (List Value) Pipeline task _ _ _)

  pub stage_runs :
      (A : Type 0) (task : Task W) (at : ℤ) (i f g : ℕ) (child_fd out_fd : Value) (w : Machine W)
      → InInt at
      → InInt (pos i)
      → eq_ℤ at (pos i) ≡ false
      → files w.kernel at ≡ some f
      → files w.kernel (pos i) ≡ some g
      → p_execx os {A = A} (stage os (integer at) task) (child_fd ∷ integer (pos i) ∷ out_fd ∷ []) w
        ≡ p_execx os task [] (moved at (pos i) w)
  unfolding p_execx stage
  stage_runs A task at i f g child_fd out_fd w ai ii e a b =
      >>=_assoc _ _ _ w
      ∙ >>=_returned _ _ w (moving at i f g w ai ii e a b).1
      ∙ p_execx-absorbs os (List Value) A task [] _ _
