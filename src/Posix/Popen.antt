-- ===== src/Posix/Popen.antt =====
-- lib/posix/init.lua: what a call of popen opens and starts in the parent.
use mathlib.Core.Path.{subst}
use luaposix.Base.{
  Bool-cases, Bytes, InInt, Option, [], arith, eq_bytes, eq_ℤ, eq_ℤ_iff, false, if◌then◌else◌, inl,
  inr, lit, none, pos, refl, some, suc, ℕ, ℤ, ◌+◌, ◌∷◌, ◌≡◌,
}
use luaposix.Helpers.Args.{arg}
use luaposix.Lua.{Host, Machine, Value, integer, run_error, to_boolean}
use luaposix.Posix.Kernel.{IsPipe, Keeps, one_at}
use luaposix.Posix.Parent.{>>=-eq-returned, pipe_ends, start_returned}
use luaposix.Posix.Processes.{
  Pipeline, ProcessCalls, Task, by_mode, new_pipe, p_popen, start_task, stdin_fileno, stdout_fileno,
}
use luaposix.Posix.Script.{Ending, lua_error, returned, thrown}

module _ {W : Type 0} (files : W → ℤ → Option ℕ) (children : W → ℤ → ℕ) where
  -- what a call of popen has opened and started
  pub record Opened (pfd : Pipeline) (k k' : W) : Type 0 where
    pub at : ℤ
    pub child : ℕ
    pub file : ℕ
    pub is : pfd ≡ record { pids = integer (pos (suc child)) ∷ []; fd = integer at }
    pub fits : InInt at
    pub free : files k at ≡ none
    pub child_fits : InInt (pos (suc child))
    pub files_after : (n : ℤ) → files k' n ≡ (if eq_ℤ n at then some file else files k n)
    pub children_after : (n : ℤ) → children k' n ≡ one_at (pos (suc child)) n + children k n

module _ ⦃lua : Host⦄ {W : Type 0} (files : W → ℤ → Option ℕ) (children : W → ℤ → ℕ)
    (os : ProcessCalls W) (law : Keeps files children os) where
  -- with the ends of the pipe in the order parent, child
  start-Opened :
      (task : Task W) (parent_fd child_fd : ℤ) (f g : ℕ) (in_fd out_fd : Value) (pfd : Pipeline)
      (k : W) (w w' : Machine W)
      → InInt parent_fd
      → InInt child_fd
      → files k parent_fd ≡ none
      → files k child_fd ≡ none
      → ((n : ℤ)
          → files w.kernel n
            ≡ (if eq_ℤ n child_fd then some g else if eq_ℤ n parent_fd then some f else files k n))
      → eq_ℤ parent_fd child_fd ≡ false
      → ((n : ℤ) → children w.kernel n ≡ children k n)
      → start_task os task (integer parent_fd) (integer child_fd) in_fd out_fd w
        ≡ (returned pfd, w')
      → Opened files children pfd k w'.kernel
  start-Opened task parent_fd child_fd f g in_fd out_fd pfd k w w' pi ci pn cn fs apart cs h =
      let u = (os.unistd.fork w).1 in
      let (p, r, e, q) =
        start_returned os task parent_fd child_fd (os.unistd.fork w).0 in_fd out_fd pfd w u w' ci
          refl (law.fork_fits w).0 (law.fork_fits w).1 h in
      record {
        at = parent_fd;
        child = p;
        file = f;
        is = e;
        fits = pi;
        free = pn;
        child_fits = subst InInt r (law.fork_fits w).0;
        files_after = λ n. rw q (
            ground (
              arith,
              law.closed child_fd n u,
              law.fork_files n w,
              fs n,
              eq_ℤ_iff n child_fd,
              eq_ℤ_iff n parent_fd,
              cn,
              apart,
              eq_ℤ_iff parent_fd child_fd,
            ));
        children_after = λ n.
            rw q (omega (arith, law.close_children child_fd n u, law.fork_children n p w r, cs n));
      }

  by_mode-Opened :
      (task : Task W) (mode : Bytes) (reader writer : ℤ) (pfd : Pipeline) (k : W) (w w' : Machine W)
      → IsPipe (files k) (files w.kernel) reader writer
      → ((n : ℤ) → children w.kernel n ≡ children k n)
      → by_mode os task mode (integer reader) (integer writer) w ≡ (returned pfd, w')
      → Opened files children pfd k w'.kernel
  unfolding lua_error
  by_mode-Opened task mode reader writer pfd k w w' p cs h =
      elim (Bool-cases (eq_bytes mode (lit "r"))) [
        | inl r ↦
            start-Opened task reader writer p.reads p.writes stdin_fileno stdout_fileno pfd k w w'
              p.reader_fits p.writer_fits p.reader_free p.writer_free
              (λ n. ground (
                arith,
                p.opened n,
                p.apart,
                eq_ℤ_iff n reader,
                eq_ℤ_iff n writer,
                eq_ℤ_iff reader writer,
              ))
              p.apart cs (rw r at h)
        | inr r ↦ elim (Bool-cases (eq_bytes mode (lit "w"))) [
          | inl x ↦
              start-Opened task writer reader p.writes p.reads stdout_fileno stdin_fileno pfd k w w'
                p.writer_fits p.reader_fits p.writer_free p.reader_free p.opened
                (ground (arith, p.apart, eq_ℤ_iff writer reader, eq_ℤ_iff reader writer)) cs
                (rw (r, x) at h)
          | inr x ↦
              let k : (◌≡◌ {A = Ending Pipeline × Machine W})
                  (thrown (run_error (lit "invalid mode")), w) (returned pfd, w') =
                rw (r, x) at h in
              absurd (cc)
        ]
      ]

  pub popen-Opened :
      (task : Task W) (mode : Bytes) (pfd : Pipeline) (w w' : Machine W)
      → p_popen os task mode (new_pipe os) w ≡ (returned pfd, w')
      → Opened files children pfd w.kernel w'.kernel
  unfolding p_popen lua_error
  popen-Opened task mode pfd w w' h =
      let (ends, v, e, k) = >>=-eq-returned _ _ w w' h in
      elim (Bool-cases (to_boolean (arg ends 1))) [
        | inl t ↦
            let (n, reader, writer, is, p) = pipe_ends os ends w v e t in
            let kernel_is : (os.unistd.pipe w).1 ≡ v = cc in
            let k' : by_mode os task mode (integer reader) (integer writer) v ≡ (returned pfd, w') =
              rw is at k in
            by_mode-Opened task mode reader writer pfd w.kernel v w'
              (law.piped reader writer n w v p) (λ m. rw (← kernel_is) (law.pipe_children m w)) k'
        | inr t ↦
            let k' : (◌≡◌ {A = Ending Pipeline × Machine W})
                (thrown (run_error (lit "error opening pipe")), v) (returned pfd, w') =
              rw t at k in
            absurd (cc)
      ]
