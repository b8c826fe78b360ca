-- ===== src/Posix/Parent.antt =====
-- lib/posix/init.lua: Ppopen as the parent sees it.
use luaposix.Base.{
  Bool-cases, InInt, List, [], ap, arith, cast_int_id, eq_ℤ, false, if◌then◌else◌, inl, inr, lit,
  minus_one, negsuc, pos, refl, some, suc, true, zero, ℕ, ℤ, ◌∷◌, ◌≡◌, ◌≤ℤ◌,
}
use luaposix.Helpers.Args.{arg, checknargs}
use luaposix.Helpers.Results.{error_message, pusherror, pushresult}
use luaposix.Lua.{Host, Machine, Value, integer, nil, run_error, string, to_boolean}
use luaposix.Posix.Closing.{closing}
use luaposix.Posix.Processes.{
  Pipeline, ProcessCalls, Task, action, command, exit, give_up, leave_if_replaced, missing,
  new_pipe, p_execx, run_child, start_task,
}
use luaposix.Posix.Script.{
  Ending, Script, call_binding, give, gone, lua_error, onward, raw_equal, returned, thrown, vanish,
  ◌>>=◌, ◌>>◌,
}
use luaposix.Unistd.Descriptors.{p_close, p_pipe}
use luaposix.Unistd.Process.{p_fork}

abbrev pub Never : {A : Type 0} → Ending A → Type 0
Never (returned a) = ⊥
Never (thrown e) = Unit {0}
Never gone = Unit {0}

module _ {W A B : Type 0} where
  onward_returned :
      (e : Ending A) (f : A → Script W B) {b : B} (v w' : Machine W)
      → onward e f v ≡ (returned b, w')
      → (a : A) × (e ≡ returned a) × (f a v ≡ (returned b, w'))
  onward_returned (returned a) f v w' h = (a, refl, h)
  onward_returned (thrown e) f v w' h = cc
  onward_returned gone f v w' h = cc

  pub >>=-eq-returned :
      (m : Script W A) (f : A → Script W B) {b : B} (w w' : Machine W)
      → (m >>= f) w ≡ (returned b, w')
      → (a : A) × (v : Machine W) × (m w ≡ (returned a, v)) × (f a v ≡ (returned b, w'))
  unfolding ◌>>=◌
  >>=-eq-returned m f w w' h =
      let (a, e, k) = onward_returned (m w).0 f (m w).1 w' h in (a, (m w).1, cc, k)

  onward-Never :
      (e : Ending A) (f : A → Script W B) (v : Machine W)
      → ((a : A) (u : Machine W) → Never (f a u).0)
      → Never (onward e f v).0
  onward-Never (returned a) f v h = h a v
  onward-Never (thrown e) f v h = tt
  onward-Never gone f v h = tt

  pub >>=-Never :
      (m : Script W A) (f : A → Script W B) (w : Machine W)
      → ((a : A) (u : Machine W) → Never (f a u).0)
      → Never ((m >>= f) w).0
  unfolding ◌>>=◌
  >>=-Never m f w h = onward-Never (m w).0 f (m w).1 h

  Never-onward :
      (e : Ending A) (f : A → Script W B) (v : Machine W) → Never e → Never (onward e f v).0
  Never-onward (returned a) f v h = elim h [ ]
  Never-onward (thrown e) f v h = tt
  Never-onward gone f v h = tt

Never-returned : {A : Type 0} {a : A} (e : Ending A) → e ≡ returned a → Never e → ⊥
Never-returned (returned a) q n = n
Never-returned (thrown e) q n = cc
Never-returned gone q n = cc

parent_pid : (p : ℕ) → raw_equal (integer (pos (suc p))) (integer (pos 0)) ≡ false
parent_pid p = ground arith

module _ ⦃lua : Host⦄ {W : Type 0} (os : ProcessCalls W) where
  give_up-Never : (A : Type 0) (w : Machine W) → Never (give_up os {A = A} w).0
  unfolding give_up vanish
  give_up-Never A w = >>=-Never _ _ w (λ reason u. >>=-Never _ _ u (λ r v. tt))

  leave-Never : (A : Type 0) (w : Machine W) → Never (leave_if_replaced os {A = A} (give_up os) w).0
  unfolding leave_if_replaced
  leave-Never A w = elim (Bool-cases (os.is_replaced w.kernel)) [
    | inl e ↦ rw e tt
    | inr e ↦ rw e (give_up-Never A w)
  ]

  pub p_execx-Never :
      (A : Type 0) (task : Task W) (args : List Value) (w : Machine W)
      → Never (p_execx os {A = A} task args w).0
  unfolding p_execx exit lua_error
  p_execx-Never A (command t) args w = >>=-Never _ _ w (λ r u. leave-Never A u)
  p_execx-Never A (action f) args w = >>=-Never _ _ w (λ r u. tt)
  p_execx-Never A missing args w = tt

  pub run_child-Never :
      (A : Type 0) (task : Task W) (parent_fd child_fd in_fd out_fd : Value) (w : Machine W)
      → Never (run_child os {A = A} task parent_fd child_fd in_fd out_fd w).0
  unfolding run_child
  run_child-Never A task parent_fd child_fd in_fd out_fd w =
      >>=-Never _ _ w
        (λ r u. >>=-Never _ _ u (λ s v. p_execx-Never A task (child_fd ∷ in_fd ∷ out_fd ∷ []) v))

  ends_at :
      (rc reader writer : ℤ) (ends : List Value) (w u v : Machine W)
      → os.unistd.pipe w ≡ ((rc, reader, writer), u)
      → new_pipe os w ≡ (returned ends, v)
      → to_boolean (arg ends 1) ≡ true
      → (n : ℕ) × (ends ≡ integer reader ∷ integer writer ∷ [])
        × (os.unistd.pipe w ≡ ((pos n, reader, writer), v))
  unfolding new_pipe call_binding p_pipe checknargs pusherror
  ends_at (pos n) reader writer ends w u v e h t = let k = rw e at h in (n, cc, cc)
  ends_at (negsuc n) reader writer ends w u v e h t =
      let k = rw e at h in
      let f : ends
          ≡ nil ∷ string (error_message (some (lit "pipe")) u.errno) ∷ integer u.errno ∷ [] =
        cc in
      let t' = rw f at t in absurd (cc)

  -- What pipe gives to Lua, where it is no failure.
  pub pipe_ends :
      (ends : List Value) (w v : Machine W)
      → new_pipe os w ≡ (returned ends, v)
      → to_boolean (arg ends 1) ≡ true
      → (n : ℕ) × (reader : ℤ) × (writer : ℤ) × (ends ≡ integer reader ∷ integer writer ∷ [])
        × (os.unistd.pipe w ≡ ((pos n, reader, writer), v))
  pipe_ends ends w v h t =
      let (n, e, f) =
        ends_at (os.unistd.pipe w).0.0 (os.unistd.pipe w).0.1 (os.unistd.pipe w).0.2 ends w
          (os.unistd.pipe w).1 v refl h t in
      (n, (os.unistd.pipe w).0.1, (os.unistd.pipe w).0.2, e, f)

  abbrev pub fork_results : ℤ → ℤ → List Value
  fork_results r errno =
      if eq_ℤ r minus_one
      then nil ∷ string (lua.strerror errno) ∷ integer errno ∷ []
      else integer r ∷ []

  pub forking :
      (r : ℤ) (w u : Machine W)
      → os.unistd.fork w ≡ (r, u)
      → InInt r
      → call_binding (p_fork os.unistd) [] w ≡ (returned (fork_results r u.errno), u)
  unfolding call_binding p_fork checknargs pushresult pusherror
  forking r w u e i =
      rw (e, cast_int_id r i)
        (elim (Bool-cases (eq_ℤ r minus_one)) [ inl m ↦ rw m refl | inr m ↦ rw m refl ])

  abbrev after_fork : ℤ → ℤ → ℤ → List Value → Script W Pipeline
  after_fork pid parent_fd child_fd _ =
      call_binding (p_close os.unistd) (integer child_fd ∷ [])
      >> give (record { pids = integer pid ∷ []; fd = integer parent_fd })

  pub start_returned :
      (task : Task W) (parent_fd child_fd r : ℤ) (in_fd out_fd : Value) (pfd : Pipeline)
      (w u w' : Machine W)
      → InInt child_fd
      → os.unistd.fork w ≡ (r, u)
      → InInt r
      → minus_one ≤ℤ r
      → start_task os task (integer parent_fd) (integer child_fd) in_fd out_fd w
        ≡ (returned pfd, w')
      → (p : ℕ) × (r ≡ pos (suc p))
        × (pfd ≡ record { pids = integer (pos (suc p)) ∷ []; fd = integer parent_fd })
        × (w' ≡ (os.unistd.close child_fd u).1)
  unfolding start_task ◌>>=◌ give lua_error
  start_returned task parent_fd child_fd (pos zero) in_fd out_fd pfd w u w' c e i m h =
      let k : onward (run_child os task (integer parent_fd) (integer child_fd) in_fd out_fd u).0
            (after_fork (pos zero) parent_fd child_fd)
            (run_child os task (integer parent_fd) (integer child_fd) in_fd out_fd u).1
          ≡ (returned pfd, w') =
        rw (forking (pos zero) w u e i) at h in
      absurd (
        Never-returned _ (ap (λ (x : Ending Pipeline × Machine W). x.0) k) (
          Never-onward _ (after_fork (pos zero) parent_fd child_fd) _ (
            run_child-Never (List Value) task (integer parent_fd) (integer child_fd) in_fd out_fd
              u)))
  start_returned task parent_fd child_fd (pos (suc p)) in_fd out_fd pfd w u w' c e i m h =
      let k : onward
            ((if raw_equal (integer (pos (suc p))) (integer (pos 0))
                then run_child os task (integer parent_fd) (integer child_fd) in_fd out_fd
                else give [])
              u).0
            (after_fork (pos (suc p)) parent_fd child_fd)
            ((if raw_equal (integer (pos (suc p))) (integer (pos 0))
                then run_child os task (integer parent_fd) (integer child_fd) in_fd out_fd
                else give [])
              u).1
          ≡ (returned pfd, w') =
        rw (forking (pos (suc p)) w u e i) at h in
      let k' : after_fork (pos (suc p)) parent_fd child_fd [] u ≡ (returned pfd, w') =
        rw (parent_pid p) at k in
      let l = rw (closing os.unistd child_fd u c).1 at k' in (p, refl, cc, cc)
  start_returned task parent_fd child_fd (negsuc zero) in_fd out_fd pfd w u w' c e i m h =
      let k : (◌≡◌ {A = Ending Pipeline × Machine W}) (thrown (run_error (lit "error forking")), u)
          (returned pfd, w') =
        rw (forking (negsuc zero) w u e i) at h in
      cc
  start_returned task parent_fd child_fd (negsuc (suc n)) in_fd out_fd pfd w u w' c e i m h =
      absurd (omega arith)
