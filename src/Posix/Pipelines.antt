-- ===== src/Posix/Pipelines.antt =====
-- lib/posix/init.lua: a pipeline in the parent, while its stages are added.
use mathlib.Core.List.{reverse, reverse-cons}
use mathlib.Core.Path.{subst}
use luaposix.Base.{
  Bool-cases, Bytes, InInt, List, Option, [], ap, arith, eq_bytes, eq_ℤ, eq_ℤ_iff, if◌then◌else◌,
  inl, inr, length, length-append, lit, none, pos, refl, some, suc, ℕ, ℤ, ◌++◌, ◌+◌, ◌<◌, ◌∷◌, ◌≡◌,
}
use luaposix.Helpers.Args.{arg}
use luaposix.Lua.{Host, Machine, Value, integer}
use luaposix.Posix.Closing.{closing}
use luaposix.Posix.Kernel.{Keeps, one_at}
use luaposix.Posix.Parent.{>>=-eq-returned}
use luaposix.Posix.Popen.{Opened, popen-Opened}
use luaposix.Posix.Processes.{
  Pipeline, ProcessCalls, Task, append_stages, in_order, new_pipe, p_popen, pipeline_of, stage,
}
use luaposix.Posix.Script.{give, returned}

-- how often a pid is among those of a list of children
abbrev pub counted : List ℕ → ℤ → ℕ
counted [] n = 0
counted (p ∷ ps) n = one_at (pos (suc p)) n + counted ps n

abbrev pub child_pids : List ℕ → List Value
child_pids [] = []
child_pids (p ∷ ps) = integer (pos (suc p)) ∷ child_pids ps

abbrev pub AllFit : List ℕ → Type 0
AllFit [] = Unit {0}
AllFit (p ∷ ps) = InInt (pos (suc p)) × AllFit ps

counted-append : (ps qs : List ℕ) (n : ℤ) → counted (ps ++ qs) n ≡ counted ps n + counted qs n
counted-append [] qs n = omega arith
counted-append (p ∷ ps) qs n = omega (arith, counted-append ps qs n)

child_pids-append : (ps qs : List ℕ) → child_pids (ps ++ qs) ≡ child_pids ps ++ child_pids qs
child_pids-append [] qs = refl
child_pids-append (p ∷ ps) qs = rw (child_pids-append ps qs) refl

AllFit-append : (ps qs : List ℕ) → AllFit ps → AllFit qs → AllFit (ps ++ qs)
AllFit-append [] qs f g = g
AllFit-append (p ∷ ps) qs f g = (f.0, AllFit-append ps qs f.1 g)

pub length-child_pids : (ps : List ℕ) → length (child_pids ps) ≡ length ps
length-child_pids [] = refl
length-child_pids (p ∷ ps) = ap suc (length-child_pids ps)

length-reverse {ℓ} : {A : Type ℓ} (xs : List A) → length (reverse xs) ≡ length xs
length-reverse [] = refl
length-reverse (x ∷ xs) =
    rw (reverse-cons x xs) (omega (arith, length-append (reverse xs) (x ∷ []), length-reverse xs))

module _ {W : Type 0} (files : W → ℤ → Option ℕ) (children : W → ℤ → ℕ) where
  -- a pipeline in the making: its last descriptor, and a child for each task
  pub record Underway (pfd : Pipeline) (k k' : W) (ps : List ℕ) : Type 0 where
    pub at : ℤ
    pub file : ℕ
    pub fd_is : pfd.fd ≡ integer at
    pub pids_are : pfd.pids ≡ child_pids ps
    pub fits : InInt at
    pub free : files k at ≡ none
    pub children_fit : AllFit ps
    pub files_after : (n : ℤ) → files k' n ≡ (if eq_ℤ n at then some file else files k n)
    pub children_after : (n : ℤ) → children k' n ≡ counted ps n + children k n

module _ ⦃lua : Host⦄ {W : Type 0} (files : W → ℤ → Option ℕ) (children : W → ℤ → ℕ)
    (os : ProcessCalls W) (law : Keeps files children os) where
  popen-Underway :
      (task : Task W) (mode : Bytes) (pfd : Pipeline) (w w' : Machine W)
      → p_popen os task mode (new_pipe os) w ≡ (returned pfd, w')
      → (p : ℕ) × Underway files children pfd w.kernel w'.kernel (p ∷ [])
  popen-Underway task mode pfd w w' h =
      let o = popen-Opened files children os law task mode pfd w w' h in
      (
        o.child,
        record {
          at = o.at;
          file = o.file;
          fd_is = ap (λ (x : Pipeline). x.fd) o.is;
          pids_are = ap (λ (x : Pipeline). x.pids) o.is;
          fits = o.fits;
          free = o.free;
          children_fit = (o.child_fits, tt);
          files_after = o.files_after;
          children_after = λ n. omega (arith, o.children_after n);
        },
      )

  -- One more stage, with the descriptor of the stage before closed.
  next-Underway :
      (pfd next : Pipeline) (k : W) (ps : List ℕ) (w v : Machine W)
      (r : Underway files children pfd k w.kernel ps)
      (o : Opened files children next w.kernel v.kernel)
      → Underway files children
          (record { pids = pfd.pids ++ (arg next.pids 1 ∷ []); fd = next.fd })
          k
          (os.unistd.close r.at v).1.kernel
          (ps ++ (o.child ∷ []))
  next-Underway pfd next k ps w v r o = record {
    at = o.at;
    file = o.file;
    fd_is = ap (λ (x : Pipeline). x.fd) o.is;
    pids_are = rw (r.pids_are, o.is, child_pids-append ps (o.child ∷ [])) refl;
    fits = o.fits;
    free = ground (arith, o.free, r.files_after o.at, eq_ℤ_iff o.at r.at);
    children_fit = AllFit-append ps (o.child ∷ []) r.children_fit (o.child_fits, tt);
    files_after = λ n. ground (
      arith,
      law.closed r.at n v,
      o.files_after n,
      r.files_after n,
      r.free,
      o.free,
      r.files_after o.at,
      eq_ℤ_iff n o.at,
      eq_ℤ_iff n r.at,
      eq_ℤ_iff o.at r.at,
    );
    children_after = λ n. omega (
      arith,
      law.close_children r.at n v,
      o.children_after n,
      r.children_after n,
      counted-append ps (o.child ∷ []) n,
    );
  }

  append-Underway :
      (tasks : List (Task W)) (mode : Bytes) (pfd pfd' : Pipeline) (k : W) (ps : List ℕ)
      (w w' : Machine W)
      → Underway files children pfd k w.kernel ps
      → append_stages os tasks mode (new_pipe os) pfd w ≡ (returned pfd', w')
      → (qs : List ℕ) × Underway files children pfd' k w'.kernel qs
        × (length qs ≡ length ps + length tasks)
  unfolding append_stages give
  append-Underway [] mode pfd pfd' k ps w w' r h =
      let same : w ≡ w' = cc in
      let kept : pfd ≡ pfd' = cc in
      (
        ps,
        subst (λ x. Underway files children x k w'.kernel ps) kept
            (subst (λ x. Underway files children pfd k x.kernel ps) same r),
        omega arith,
      )
  append-Underway (task ∷ tasks) mode pfd pfd' k ps w w' r h =
      let (next, v, e, l) = >>=-eq-returned _ _ w w' h in
      let o = popen-Opened files children os law (stage os pfd.fd task) mode next w v e in
      let (closed, u, f, m) = >>=-eq-returned _ _ v w' l in
      let f' = rw (r.fd_is, (closing os.unistd r.at v r.fits).1) at f in
      let g : (os.unistd.close r.at v).1 ≡ u = cc in
      let (qs, r', n) =
        append-Underway tasks mode
          (record { pids = pfd.pids ++ (arg next.pids 1 ∷ []); fd = next.fd }) pfd' k
          (ps ++ (o.child ∷ [])) u w'
          (subst
            (λ x.
              Underway files children
                (record { pids = pfd.pids ++ (arg next.pids 1 ∷ []); fd = next.fd }) k x.kernel
                (ps ++ (o.child ∷ [])))
            g (next-Underway pfd next k ps w v r o))
          m in
      (qs, r', omega (arith, n, length-append ps (o.child ∷ [])))

  pub length-in_order :
      (mode : Bytes) (tasks : List (Task W)) → length (in_order os mode tasks) ≡ length tasks
  length-in_order mode tasks = elim (Bool-cases (eq_bytes mode (lit "w"))) [
    | inl e ↦ rw e (length-reverse tasks)
    | inr e ↦ rw e refl
  ]

  pub pipeline_of-Underway :
      (tasks : List (Task W)) (mode : Bytes) (pfd : Pipeline) (w w' : Machine W)
      → 0 < length tasks
      → pipeline_of os tasks mode (new_pipe os) w ≡ (returned pfd, w')
      → (ps : List ℕ) × Underway files children pfd w.kernel w'.kernel ps
        × (length ps ≡ length tasks)
  pipeline_of-Underway [] mode pfd w w' l h = absurd (omega arith)
  pipeline_of-Underway (task ∷ tasks) mode pfd w w' l h =
      let (first, v, e, m) = >>=-eq-returned _ _ w w' h in
      let (p, r) = popen-Underway task mode first w v e in
      let (qs, r', n) = append-Underway tasks mode first pfd w.kernel (p ∷ []) v w' r m in
      (qs, r', omega (arith, n))
