-- ===== src/Posix/Stages/Child.antt =====
-- lib/posix/init.lua: the descriptors of a child that runs a later stage of a pipeline.
use luaposix.Base.{
  InInt, Option, [], ap, arith, eq_ℤ, eq_ℤ_iff, false, if◌then◌else◌, none, pos, some, ℕ, ℤ, ◌∙◌,
  ◌≡◌,
}
use luaposix.Lua.{Host, Machine, integer}
use luaposix.Posix.Kernel.{Keeps}
use luaposix.Posix.Processes.{Pipeline, ProcessCalls, Task, p_execx, stage, start_task}
use luaposix.Posix.Stages.{moved, moved_files, stage_runs, start_child}

module _ {W : Type 0} (files : W → ℤ → Option ℕ) where
  -- standard input and output, in the order of the mode, and the stage before
  pub record Standard (k : W) (at : ℤ) (i o f : ℕ) : Type 0 where
    pub at_fits : InInt at
    pub in_fits : InInt (pos i)
    pub out_fits : InInt (pos o)
    pub in_out : eq_ℤ (pos i) (pos o) ≡ false
    pub at_in : eq_ℤ at (pos i) ≡ false
    pub at_out : eq_ℤ at (pos o) ≡ false
    pub input : ℕ
    pub output : ℕ
    pub at_open : files k at ≡ some f
    pub in_open : files k (pos i) ≡ some input
    pub out_open : files k (pos o) ≡ some output

  -- the ends of a pipe that was made since k
  pub record Fresh (k k' : W) (parent_fd child_fd : ℤ) (h : ℕ) : Type 0 where
    pub parent_fits : InInt parent_fd
    pub child_fits : InInt child_fd
    pub parent_free : files k parent_fd ≡ none
    pub child_free : files k child_fd ≡ none
    pub child_open : files k' child_fd ≡ some h
    pub others :
        (n : ℤ) → eq_ℤ n parent_fd ≡ false → eq_ℤ n child_fd ≡ false → files k' n ≡ files k n

  -- a descriptor that is open is none of the new ones
  apart_from_open :
      (k : W) (unused used : ℤ) (g : ℕ)
      → files k unused ≡ none
      → files k used ≡ some g
      → (eq_ℤ unused used ≡ false) × (eq_ℤ used unused ≡ false)
  apart_from_open k unused used g a b =
      (ground (arith, eq_ℤ_iff unused used, a, b), ground (arith, eq_ℤ_iff used unused, a, b))

module _ ⦃lua : Host⦄ {W : Type 0} (files : W → ℤ → Option ℕ) (children : W → ℤ → ℕ)
    (os : ProcessCalls W) (law : Keeps files children os) where
  -- the child, when it has its output and has closed the end of the parent
  abbrev connected : ℤ → ℤ → ℤ → Machine W → Machine W
  connected parent_fd child_fd to w =
      (os.unistd.close parent_fd (moved files children os law child_fd to (os.unistd.fork w).1)).1

  connected_files :
      (parent_fd child_fd : ℤ) (o g h : ℕ) (k : W) (w : Machine W) (n : ℤ)
      → Fresh files k w.kernel parent_fd child_fd h
      → files k (pos o) ≡ some g
      → files w.kernel (pos o) ≡ some g
      → files (connected parent_fd child_fd (pos o) w).kernel n
        ≡ (if eq_ℤ n (pos o) then some h else files k n)
  connected_files parent_fd child_fd o g h k w n fresh ko wo =
      let u = (os.unistd.fork w).1 in
      ground (
        arith,
        law.closed parent_fd n (moved files children os law child_fd (pos o) u),
        moved_files files children os law child_fd o h g u n
            (law.fork_files child_fd w ∙ fresh.child_open) (law.fork_files (pos o) w ∙ wo),
        law.fork_files n w,
        fresh.others n,
        fresh.parent_free,
        fresh.child_free,
        (apart_from_open files k parent_fd (pos o) g fresh.parent_free ko).0,
        (apart_from_open files k child_fd (pos o) g fresh.child_free ko).0,
        eq_ℤ_iff n parent_fd,
        eq_ℤ_iff n child_fd,
        eq_ℤ_iff n (pos o),
      )

  pub stage_child :
      (task : Task W) (at parent_fd child_fd : ℤ) (i o f h : ℕ) (k : W) (w : Machine W)
      → Standard files k at i o f
      → Fresh files k w.kernel parent_fd child_fd h
      → (os.unistd.fork w).0 ≡ pos 0
      → (v : Machine W) × (start_task os
            (stage os (integer at) task)
            (integer parent_fd)
            (integer child_fd)
            (integer (pos i))
            (integer (pos o))
            w
          ≡ p_execx os task [] v)
        × ((n : ℤ)
            → files v.kernel n ≡ (
                if eq_ℤ n (pos o)
                then some h
                else if eq_ℤ n (pos i)
                then some f
                else if eq_ℤ n at
                then none
                else files k n))
  stage_child task at parent_fd child_fd i o f h k w std fresh z =
      let x = connected parent_fd child_fd (pos o) w in
      let (apart, apart') =
        apart_from_open files k child_fd (pos o) std.output fresh.child_free std.out_open in
      let (aside, aside') =
        apart_from_open files k parent_fd (pos o) std.output fresh.parent_free std.out_open in
      let wo = fresh.others (pos o) aside' apart' ∙ std.out_open in
      let xs =
        λ (n : ℤ). connected_files parent_fd child_fd o std.output h k w n fresh std.out_open wo in
      let xa : files x.kernel at ≡ some f = ground (arith, xs at, std.at_out, std.at_open) in
      let xi : files x.kernel (pos i) ≡ some std.input =
        ground (arith, xs (pos i), std.in_out, std.in_open) in
      (
        moved files children os law at (pos i) x,
        start_child files children os law (stage os (integer at) task) parent_fd child_fd i o h
              std.output w (os.unistd.fork w).1 fresh.parent_fits fresh.child_fits std.out_fits
              apart fresh.child_open wo (ap (λ r. (r, (os.unistd.fork w).1)) z)
            ∙ stage_runs files children os law Pipeline task at i f std.input (integer child_fd)
                (integer (pos o)) x std.at_fits std.in_fits std.at_in xa xi,
        λ n. ground (
          arith,
          moved_files files children os law at i f std.input x n xa xi,
          xs n,
          std.at_out,
          std.at_in,
          std.in_out,
          eq_ℤ_iff n at,
          eq_ℤ_iff n (pos o),
          eq_ℤ_iff n (pos i),
        ),
      )
