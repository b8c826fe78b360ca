-- ===== src/Posix/Ends.antt =====
-- lib/posix/init.lua: popen in a child of a pipeline, and popen where fork fails.
use luaposix.Base.{
  Bool, Bytes, InInt, Option, [], arith, eq_ℤ, eq_ℤ_iff, false, if◌then◌else◌, lit, minus_one, none,
  pos, refl, some, true, ℕ, ℤ, ◌∙◌, ◌∷◌, ◌≡◌, ◌≢◌,
}
use luaposix.Helpers.Args.{checknargs}
use luaposix.Lua.{Host, Machine, Value, integer, run_error}
use luaposix.Posix.Children.{>>=_returned}
use luaposix.Posix.Kernel.{Keeps}
use luaposix.Posix.Parent.{forking}
use luaposix.Posix.Processes.{
  ProcessCalls, Task, by_mode, new_pipe, p_execx, p_popen, stage, start_task, stdin_fileno,
  stdout_fileno,
}
use luaposix.Posix.Script.{call_binding, lua_error, returned, thrown, ◌>>=◌}
use luaposix.Posix.Stages.Child.{Standard, stage_child}
use luaposix.Unistd.Descriptors.{p_pipe}

-- whether the mode is "w"
abbrev pub mode_of : Bool → Bytes
mode_of false = lit "r"
mode_of true = lit "w"

-- where the task finds its input in mode "r", and where it puts its output
abbrev pub in_of : Bool → ℕ
in_of false = 0
in_of true = 1

abbrev pub out_of : Bool → ℕ
out_of false = 1
out_of true = 0

abbrev pub end_of : Bool → ℤ → ℤ → ℤ
end_of false reader writer = writer
end_of true reader writer = reader

ne-false : (a b : ℤ) → a ≢ b → eq_ℤ a b ≡ false
ne-false a b h = ground (arith, eq_ℤ_iff a b)

module _ ⦃lua : Host⦄ {W : Type 0} (os : ProcessCalls W) where
  piping :
      (rc : ℕ) (reader writer : ℤ) (w v : Machine W)
      → os.unistd.pipe w ≡ ((pos rc, reader, writer), v)
      → new_pipe os w ≡ (returned (integer reader ∷ integer writer ∷ []), v)
  unfolding new_pipe call_binding p_pipe checknargs
  piping rc reader writer w v e = rw e refl

  popen_pipes :
      (task : Task W) (mode : Bytes) (rc : ℕ) (reader writer : ℤ) (w v : Machine W)
      → os.unistd.pipe w ≡ ((pos rc, reader, writer), v)
      → p_popen os task mode (new_pipe os) w
        ≡ by_mode os task mode (integer reader) (integer writer) v
  unfolding p_popen
  popen_pipes task mode rc reader writer w v e = >>=_returned _ _ w (piping rc reader writer w v e)

  start_fails :
      (task : Task W) (parent_fd child_fd in_fd out_fd : Value) (w u : Machine W)
      → os.unistd.fork w ≡ (minus_one, u)
      → start_task os task parent_fd child_fd in_fd out_fd w
        ≡ (thrown (run_error (lit "error forking")), u)
  unfolding start_task ◌>>=◌ lua_error
  start_fails task parent_fd child_fd in_fd out_fd w u e =
      rw (forking os minus_one w u e (omega arith)) refl

  by_mode_fails :
      (task : Task W) (writes : Bool) (reader writer : ℤ) (w u : Machine W)
      → os.unistd.fork w ≡ (minus_one, u)
      → by_mode os task (mode_of writes) (integer reader) (integer writer) w
        ≡ (thrown (run_error (lit "error forking")), u)
  by_mode_fails task false reader writer w u e =
      start_fails task (integer reader) (integer writer) stdin_fileno stdout_fileno w u e
  by_mode_fails task true reader writer w u e =
      start_fails task (integer writer) (integer reader) stdout_fileno stdin_fileno w u e

module _ ⦃lua : Host⦄ {W : Type 0} (files : W → ℤ → Option ℕ) (children : W → ℤ → ℕ)
    (os : ProcessCalls W) (law : Keeps files children os) where
  standard :
      (i o : ℕ) (k : W) (at : ℤ) (f g h : ℕ)
      → InInt at
      → InInt (pos i)
      → InInt (pos o)
      → eq_ℤ (pos i) (pos o) ≡ false
      → at ≢ pos i
      → at ≢ pos o
      → files k at ≡ some f
      → files k (pos i) ≡ some g
      → files k (pos o) ≡ some h
      → Standard files k at i o f
  standard i o k at f g h ai ii oi io ai' ao' ka ki ko = record {
    at_fits = ai;
    in_fits = ii;
    out_fits = oi;
    in_out = io;
    at_in = ne-false at (pos i) ai';
    at_out = ne-false at (pos o) ao';
    input = g;
    output = h;
    at_open = ka;
    in_open = ki;
    out_open = ko;
  }

  -- For a later stage of a pipeline, in the child, where standard input and output are open and are
  -- not the descriptor of the stage before: the task runs with the descriptors of the process that
  -- called popen, but for standard output, which is the end of the new pipe, standard input, which
  -- is the file of the stage before, and the descriptor of that stage, which is closed. In mode "w"
  -- input and output change places. No other end of a pipe is open.
  pub stage_gets_its_ends :
      (task : Task W) (writes : Bool) (at reader writer : ℤ) (rc f f0 f1 : ℕ) (w v : Machine W)
      → InInt at
      → at ≢ pos 0
      → at ≢ pos 1
      → files w.kernel at ≡ some f
      → files w.kernel (pos 0) ≡ some f0
      → files w.kernel (pos 1) ≡ some f1
      → os.unistd.pipe w ≡ ((pos rc, reader, writer), v)
      → (os.unistd.fork v).0 ≡ pos 0
      → (u : Machine W) × (p_popen os (stage os (integer at) task) (mode_of writes) (new_pipe os) w
          ≡ p_execx os task [] u)
        × ((n : ℤ)
            → files u.kernel n ≡ (
                if eq_ℤ n (pos (out_of writes))
                then files v.kernel (end_of writes reader writer)
                else if eq_ℤ n (pos (in_of writes))
                then some f
                else if eq_ℤ n at
                then none
                else files w.kernel n))
  stage_gets_its_ends task false at reader writer rc f f0 f1 w v ai a0 a1 wa w0 w1 e z =
      let p = law.piped reader writer rc w v e in
      let ends : files v.kernel writer ≡ some p.writes = ground (
        arith,
        p.opened writer,
        p.apart,
        eq_ℤ_iff writer reader,
        eq_ℤ_iff writer writer,
        eq_ℤ_iff reader writer,
      ) in
      let (u, q, fs) =
        stage_child files children os law task at reader writer 0 1 f p.writes w.kernel v
          (standard 0 1 w.kernel at f f0 f1 ai (omega arith) (omega arith) refl a0 a1 wa w0 w1)
          record {
            parent_fits = p.reader_fits;
            child_fits = p.writer_fits;
            parent_free = p.reader_free;
            child_free = p.writer_free;
            child_open = ends;
            others = λ n a b. ground (arith, p.opened n, a, b);
          }
          z in
      (
        u,
        popen_pipes os (stage os (integer at) task) (lit "r") rc reader writer w v e ∙ q,
        λ n. rw ends (fs n),
      )
  stage_gets_its_ends task true at reader writer rc f f0 f1 w v ai a0 a1 wa w0 w1 e z =
      let p = law.piped reader writer rc w v e in
      let ends : files v.kernel reader ≡ some p.reads =
        ground (arith, p.opened reader, eq_ℤ_iff reader reader) in
      let (u, q, fs) =
        stage_child files children os law task at writer reader 1 0 f p.reads w.kernel v
          (standard 1 0 w.kernel at f f1 f0 ai (omega arith) (omega arith) refl a1 a0 wa w1 w0)
          record {
            parent_fits = p.writer_fits;
            child_fits = p.reader_fits;
            parent_free = p.writer_free;
            child_free = p.reader_free;
            child_open = ends;
            others = λ n a b. ground (arith, p.opened n, a, b);
          }
          z in
      (
        u,
        popen_pipes os (stage os (integer at) task) (lit "w") rc reader writer w v e ∙ q,
        λ n. rw ends (fs n),
      )

  -- Where the pipe is made and fork fails, in either mode: popen raises an error, and both ends of
  -- the pipe, which were free before, stay open.
  pub fork_failure_leaks :
      (task : Task W) (writes : Bool) (reader writer : ℤ) (rc : ℕ) (w v u : Machine W)
      → os.unistd.pipe w ≡ ((pos rc, reader, writer), v)
      → os.unistd.fork v ≡ (minus_one, u)
      → (p_popen os task (mode_of writes) (new_pipe os) w
          ≡ (thrown (run_error (lit "error forking")), u))
        × (files w.kernel reader ≡ none)
        × (files w.kernel writer ≡ none)
        × (files u.kernel reader ≢ none)
        × (files u.kernel writer ≢ none)
  fork_failure_leaks task writes reader writer rc w v u e k =
      let p = law.piped reader writer rc w v e in
      let kernel_is : (os.unistd.fork v).1 ≡ u = cc in
      (
        popen_pipes os task (mode_of writes) rc reader writer w v e
            ∙ by_mode_fails os task writes reader writer v u k,
        p.reader_free,
        p.writer_free,
        λ h.
            absurd
              (ground (arith, law.fork_files reader v, p.opened reader, eq_ℤ_iff reader reader)),
        λ h. absurd (
            ground (
              arith,
              law.fork_files writer v,
              p.opened writer,
              eq_ℤ_iff writer writer,
              eq_ℤ_iff writer reader,
            )),
      )
