-- ===== src/Posix/Pclose.antt =====
-- lib/posix/init.lua: what is left of a pipeline when it is closed.
use luaposix.Base.{
  Bool-cases, Bytes, InInt, List, Option, [], ap, arith, cast_int, cast_int_id, eq_ℤ, eq_ℤ_iff,
  if◌then◌else◌, inl, inr, length, minus_one, none, pos, refl, some, suc, ℕ, ℤ, ◌+◌, ◌<◌, ◌∙◌, ◌∷◌,
  ◌≡◌,
}
use luaposix.Helpers.Args.{checknargs, optint, optinteger}
use luaposix.Helpers.Results.{pusherror}
use luaposix.Lua.{Host, Machine, Value, integer}
use luaposix.Posix.Closing.{closing}
use luaposix.Posix.Kernel.{Keeps, WaitsOut}
use luaposix.Posix.Pipelines.{
  AllFit, Underway, child_pids, counted, length-child_pids, length-in_order, pipeline_of-Underway,
}
use luaposix.Posix.Processes.{
  Pipeline, ProcessCalls, Task, in_order, new_pipe, p_pclose, p_popen_pipeline, wait_for,
}
use luaposix.Posix.Script.{call_binding, give, returned, ◌>>=◌}
use luaposix.Sys.Wait.{p_wait}
use luaposix.Unistd.Descriptors.{p_close}

module _ ⦃lua : Host⦄ {W : Type 0} (files : W → ℤ → Option ℕ) (children : W → ℤ → ℕ)
    (os : ProcessCalls W) (law : Keeps files children os) where
  waiting :
      (p : ℕ) (w : Machine W)
      → InInt (pos (suc p))
      → (results : List Value) × (call_binding (p_wait os.waiting) (integer (pos (suc p)) ∷ []) w
          ≡ (returned results, (os.waiting.waitpid (pos (suc p)) (pos 0) w).1))
  unfolding call_binding p_wait optinteger optint checknargs pusherror cast_int
  waiting p w i =
      rw (cast_int_id (pos (suc p)) i)
        (elim (Bool-cases (eq_ℤ (os.waiting.waitpid (pos (suc p)) (pos 0) w).0.0 minus_one)) [
          | inl e ↦ rw e (_, refl)
          | inr e ↦ rw e (_, refl)
        ])

  -- Where each child is there, each is waited for, and nothing is closed.
  wait_for-all :
      (p : ℕ) (ps : List ℕ) (rest : ℤ → ℕ) (w : Machine W)
      → AllFit (p ∷ ps)
      → WaitsOut os (child_pids (p ∷ ps)) w
      → ((n : ℤ) → children w.kernel n ≡ counted (p ∷ ps) n + rest n)
      → (n : ℤ)
      → (files (wait_for os (child_pids (p ∷ ps)) w).1.kernel n ≡ files w.kernel n)
        × (children (wait_for os (child_pids (p ∷ ps)) w).1.kernel n ≡ rest n)
  unfolding wait_for ◌>>=◌ give
  wait_for-all p [] rest w i o h n = rw (waiting p w i.0).1 (
    law.wait_files (pos (suc p)) n w,
    omega (
      arith,
      h n,
      h (pos (suc p)),
      law.wait_children n p w o.0
          (ground (arith, h (pos (suc p)), eq_ℤ_iff (pos (suc p)) (pos (suc p)))),
    ),
  )
  wait_for-all p (q ∷ ps) rest w i o h n =
      let u = (os.waiting.waitpid (pos (suc p)) (pos 0) w).1 in
      let there : 0 < children w.kernel (pos (suc p)) =
        ground (arith, h (pos (suc p)), eq_ℤ_iff (pos (suc p)) (pos (suc p))) in
      let (f, c) =
        wait_for-all q ps rest u i.1 o.1
          (λ m. omega (arith, h m, law.wait_children m p w o.0 there)) n in
      rw (waiting p w i.0).1 (f ∙ law.wait_files (pos (suc p)) n w, c)

  closes :
      (pfd : Pipeline) (k : W) (ps : List ℕ) (w : Machine W)
      → 0 < length ps
      → Underway files children pfd k w.kernel ps
      → WaitsOut os pfd.pids (call_binding (p_close os.unistd) (pfd.fd ∷ []) w).1
      → (n : ℤ)
      → (files (p_pclose os pfd w).1.kernel n ≡ files k n)
        × (children (p_pclose os pfd w).1.kernel n ≡ children k n)
  unfolding p_pclose ◌>>=◌
  closes pfd k [] w l r o n = absurd (omega arith)
  closes pfd k (p ∷ ps) w l r o n =
      let u = (os.unistd.close r.at w).1 in
      let o' : WaitsOut os (child_pids (p ∷ ps)) u =
        rw (r.fd_is, r.pids_are, (closing os.unistd r.at w r.fits).1) at o in
      let (f, c) =
        wait_for-all p ps (children k) u r.children_fit o'
          (λ m. omega (arith, law.close_children r.at m w, r.children_after m)) n in
      rw (r.fd_is, r.pids_are, (closing os.unistd r.at w r.fits).1)
        (f ∙ ground (arith, law.closed r.at n w, r.files_after n, r.free, eq_ℤ_iff n r.at), c)

  -- Where popen_pipeline returns a pipeline for at least one task: it has a child for each task, and
  -- of the descriptors that it opened exactly the one in `fd` is open, which was free before. Where
  -- also no wait for these children is interrupted by a signal: after pclose every descriptor is as
  -- it was before the pipeline, and so are the children that were not waited for.
  pub pipeline_leaves_nothing :
      (tasks : List (Task W)) (mode : Bytes) (pfd : Pipeline) (w w' : Machine W)
      → 0 < length tasks
      → p_popen_pipeline os tasks mode (new_pipe os) w ≡ (returned pfd, w')
      → WaitsOut os pfd.pids (call_binding (p_close os.unistd) (pfd.fd ∷ []) w').1
      → (length pfd.pids ≡ length tasks)
        × ((fd : ℤ) × (f : ℕ) × (pfd.fd ≡ integer fd)
            × (files w.kernel fd ≡ none)
            × ((n : ℤ) → files w'.kernel n ≡ (if eq_ℤ n fd then some f else files w.kernel n)))
        × ((n : ℤ)
            → (files (p_pclose os pfd w').1.kernel n ≡ files w.kernel n)
              × (children (p_pclose os pfd w').1.kernel n ≡ children w.kernel n))
  unfolding p_popen_pipeline
  pipeline_leaves_nothing tasks mode pfd w w' l h o =
      let (ps, r, n) =
        pipeline_of-Underway files children os law (in_order os mode tasks) mode pfd w w'
          (omega (arith, length-in_order files children os law mode tasks)) h in
      (
        omega (
          arith,
          n,
          length-in_order files children os law mode tasks,
          length-child_pids ps,
          ap length r.pids_are,
        ),
        (r.at, r.file, r.fd_is, r.free, r.files_after),
        closes pfd w.kernel ps w'
            (omega (arith, n, length-in_order files children os law mode tasks)) r o,
      )
