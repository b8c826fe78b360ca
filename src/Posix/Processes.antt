-- ===== src/Posix/Processes.antt =====
-- lib/posix/init.lua: processes and pipelines, on the functions of posix.unistd and posix.sys.wait.
-- The wrappers of the module typecheck, which need not be there, are left out.
use mathlib.Core.List.{reverse}
use luaposix.Base.{
  Bool, Bytes, List, [], eq_bytes, if◌then◌else◌, leb, lit, ltb, pos, ℕ, ◌&&◌, ◌++◌, ◌-◌, ◌==◌, ◌∷◌,
}
use luaposix.Errno.{p_errno}
use luaposix.Helpers.Args.{arg}
use luaposix.Lua.{
  Host, Machine, Table, Value, empty, entry, get_index, int, integer, nil, number, table,
  to_boolean,
}
use luaposix.Posix.Script.{
  Script, call_binding, give, gone, lua_error, raw_equal, vanish, ◌>>=◌, ◌>>◌,
}
use luaposix.Sys.Wait.{WaitCalls, p_wait}
use luaposix.Unistd.Calls.{UnistdCalls}
use luaposix.Unistd.Descriptors.{p_close, p_dup2, p_pipe}
use luaposix.Unistd.Process.{p__exit, p_execp, p_fork}

pub record ProcessCalls (W : Type 0) : Type 0 where
  pub unistd : UnistdCalls W
  pub waiting : WaitCalls W
  -- os.exit, which does not come back
  pub os_exit : Value → Machine W → Machine W
  -- whether a call of exec has put another program in the place of this one
  pub is_replaced : W → Bool

-- what `task` may be: a table for execp, a function, or a value that cannot be called
pub data Task (W : Type 0) : Type 0 where
  command : Value → Task W
  action : (List Value → Script W (List Value)) → Task W
  missing : Task W

-- the table that popen makes
pub record Pipeline : Type 0 where
  pub pids : List Value
  pub fd : Value

abbrev pub stdin_fileno : Value
stdin_fileno = integer (pos 0)

abbrev pub stdout_fileno : Value
stdout_fileno = integer (pos 1)

abbrev nothing : List Value
nothing = []

-- table.remove (t, 1) on a table with border n: what moves to the index below it
abbrev pub shift : ℕ → Table → Table
shift n empty = empty
shift n (entry (number (int (pos i))) v t) =
    let rest = shift n t in
    if i == 1
    then rest
    else if ltb 1 i && leb i n
    then entry (integer (pos (i - 1))) v rest
    else entry (integer (pos i)) v rest
shift n (entry k v t) = entry k v (shift n t)

module _ ⦃lua : Host⦄ {W : Type 0} (os : ProcessCalls W) where
  unfoldable pub remove_first : Value → Value × Value
  remove_first (table type t) =
      (get_index 1 (table type t), table type (shift (lua.objlen (table type t)) t))
  remove_first v = (nil, v)

  -- it ends the process, whatever the caller would go on with
  unfoldable pub exit : {A : Type 0} → Value → Script W A
  exit code w = (gone, os.os_exit code w)

  unfoldable pub leave_if_replaced : {A : Type 0} → Script W A → Script W A
  leave_if_replaced k w = if os.is_replaced w.kernel then (gone, w) else k w

  unfoldable pub give_up : {A : Type 0} → Script W A
  give_up = do
    reason ← call_binding p_errno []
    call_binding (p__exit os.unistd) (arg reason 2 ∷ [])
    vanish

  -- Pexecx: it does not return
  unfoldable pub p_execx : {A : Type 0} → Task W → List Value → Script W A
  p_execx (command t) args = do
    let path = (remove_first t).0
    let rest = (remove_first t).1
    call_binding (p_execp os.unistd) (path ∷ rest ∷ [])
    leave_if_replaced give_up
  p_execx (action f) args = do
    results ← f args
    let code = arg results 1
    exit (if to_boolean code then code else integer (pos 0))
  p_execx missing args = lua_error (lit "attempt to call a nil value")

  unfoldable pub move_fd : Value → Value → Script W (List Value)
  move_fd from_fd to_fd = if raw_equal from_fd to_fd then give [] else do
    moved ← call_binding (p_dup2 os.unistd) (from_fd ∷ to_fd ∷ [])
    if to_boolean (arg moved 1)
        then call_binding (p_close os.unistd) (from_fd ∷ [])
        else lua_error (lit "error dup2-ing")

  unfoldable pub run_child : {A : Type 0} → Task W → Value → Value → Value → Value → Script W A
  run_child task parent_fd child_fd in_fd out_fd = do
    move_fd child_fd out_fd
    call_binding (p_close os.unistd) (parent_fd ∷ [])
    p_execx task (child_fd ∷ in_fd ∷ out_fd ∷ [])

  -- the part of Ppopen behind the test of the mode
  unfoldable pub start_task : Task W → Value → Value → Value → Value → Script W Pipeline
  start_task task parent_fd child_fd in_fd out_fd = do
    forked ← call_binding (p_fork os.unistd) []
    let pid = arg forked 1
    if raw_equal pid nil
        then lua_error (lit "error forking")
        else if raw_equal pid (integer (pos 0))
        then run_child task parent_fd child_fd in_fd out_fd
        else give nothing
    call_binding (p_close os.unistd) (child_fd ∷ [])
    give (record { pids = pid ∷ []; fd = parent_fd })

  abbrev pub by_mode : Task W → Bytes → Value → Value → Script W Pipeline
  by_mode task mode read_fd write_fd =
      if eq_bytes mode (lit "r")
      then start_task task read_fd write_fd stdin_fileno stdout_fileno
      else if eq_bytes mode (lit "w")
      then start_task task write_fd read_fd stdout_fileno stdin_fileno
      else lua_error (lit "invalid mode")

  abbrev pub pipe_failed : Script W Pipeline
  pipe_failed = lua_error (lit "error opening pipe")

  -- the third argument is pipe_fn, or the function pipe
  unfoldable pub p_popen : Task W → Bytes → Script W (List Value) → Script W Pipeline
  p_popen task mode pipe_fn = do
    ends ← pipe_fn
    let read_fd = arg ends 1
    let write_fd = arg ends 2
    if to_boolean read_fd then by_mode task mode read_fd write_fd else pipe_failed

  unfoldable pub new_pipe : Script W (List Value)
  new_pipe = call_binding (p_pipe os.unistd) []

  -- the function that popen_pipeline makes for a later task
  unfoldable pub stage : Value → Task W → Task W
  stage fd task = action (λ args. move_fd fd (arg args 2) >> p_execx task [])

  unfoldable pub append_stages :
      List (Task W) → Bytes → Script W (List Value) → Pipeline → Script W Pipeline
  append_stages [] mode pipe_fn pfd = give pfd
  append_stages (task ∷ tasks) mode pipe_fn pfd = do
    next ← p_popen (stage pfd.fd task) mode pipe_fn
    call_binding (p_close os.unistd) (pfd.fd ∷ [])
    append_stages tasks mode pipe_fn
        (record { pids = pfd.pids ++ (arg next.pids 1 ∷ []); fd = next.fd })

  -- the order of the loop: from the last task in mode "w"
  abbrev pub in_order : Bytes → List (Task W) → List (Task W)
  in_order mode tasks = if eq_bytes mode (lit "w") then reverse tasks else tasks

  abbrev pub pipeline_of : List (Task W) → Bytes → Script W (List Value) → Script W Pipeline
  pipeline_of [] mode pipe_fn = p_popen missing mode pipe_fn
  pipeline_of (task ∷ tasks) mode pipe_fn =
      p_popen task mode pipe_fn >>= append_stages tasks mode pipe_fn

  unfoldable pub p_popen_pipeline :
      List (Task W) → Bytes → Script W (List Value) → Script W Pipeline
  p_popen_pipeline tasks mode pipe_fn = pipeline_of (in_order mode tasks) mode pipe_fn

  -- the waits of Ppclose; the results are those of the last
  unfoldable pub wait_for : List Value → Script W (List Value)
  wait_for [] = do
    last ← call_binding (p_wait os.waiting) (nil ∷ [])
    give (arg last 2 ∷ arg last 3 ∷ [])
  wait_for (pid ∷ []) = do
    last ← call_binding (p_wait os.waiting) (pid ∷ [])
    give (arg last 2 ∷ arg last 3 ∷ [])
  wait_for (pid ∷ next ∷ pids) = do
    call_binding (p_wait os.waiting) (pid ∷ [])
    wait_for (next ∷ pids)

  unfoldable pub p_pclose : Pipeline → Script W (List Value)
  p_pclose pfd = do call_binding (p_close os.unistd) (pfd.fd ∷ []); wait_for pfd.pids

  unfoldable pub p_spawn : Task W → List Value → Script W (List Value)
  p_spawn task args = do
    forked ← call_binding (p_fork os.unistd) []
    let pid = arg forked 1
    if raw_equal pid nil then give (arg forked 3 ∷ arg forked 2 ∷ []) else do
      if raw_equal pid (integer (pos 0)) then p_execx task args else give nothing
      waited ← call_binding (p_wait os.waiting) (pid ∷ [])
      give (arg waited 3 ∷ arg waited 2 ∷ [])
