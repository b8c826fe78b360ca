-- ===== src/Tests/Kernel/Laws.antt =====
-- What lib/posix relies on, shown of the small system.
use luaposix.Base.{
  Bool-cases, InInt, List, [], ap, arith, eq_ℤ, eq_ℤ_iff, if◌then◌else◌, inl, inr, length, ltb,
  minus_one, negsuc, none, not, pos, refl, some, suc, ℕ, ℤ, ◌&&◌, ◌+◌, ◌<◌, ◌==◌, ◌∷◌, ◌≡◌, ◌≤ℤ◌,
  ◌≤◌, ◌⊎◌,
}
use luaposix.Lua.{Machine}
use luaposix.Posix.Kernel.{IsPipe, Keeps, one_at}
use luaposix.Posix.Pipelines.{counted}
use luaposix.Tests.Kernel.{
  Proc, above, children_of, close_one, dup_onto, fd_lookup, files_of, fork_one, make_pipe, put_fd,
  small_system, without_fd, without_kid,
}

pub fd_lookup-above : (m : ℕ) (t : List (ℕ × ℕ)) → above t ≤ m → fd_lookup m t ≡ none
fd_lookup-above m [] h = refl
fd_lookup-above m ((a, f) ∷ t) h = ground (arith, fd_lookup-above m t)

fd_lookup-without_fd :
    (m n : ℕ) (t : List (ℕ × ℕ))
    → fd_lookup n (without_fd m t) ≡ (if n == m then none else fd_lookup n t)
fd_lookup-without_fd m n [] = ground arith
fd_lookup-without_fd m n ((a, f) ∷ t) = ground (arith, fd_lookup-without_fd m n t)

counted-without_kid :
    (p : ℕ) (n : ℤ) (ps : List ℕ)
    → 0 < counted ps (pos (suc p))
    → one_at (pos (suc p)) n + counted (without_kid (pos (suc p)) ps) n ≡ counted ps n
counted-without_kid p n [] h = absurd (omega arith)
counted-without_kid p n (q ∷ ps) h = ground (
  arith,
  counted-without_kid p n ps,
  eq_ℤ_iff n (pos (suc p)),
  eq_ℤ_iff n (pos (suc q)),
  eq_ℤ_iff (pos (suc p)) (pos (suc q)),
)

opened_at :
    (n : ℤ) (k : Proc)
    → files_of (record k { table = (above k.table, 10) ∷ (above k.table + 1, 11) ∷ k.table }) n ≡ (
        if eq_ℤ n (pos (above k.table))
        then some 10
        else if eq_ℤ n (pos (above k.table + 1))
        then some 11
        else files_of k n)
opened_at (pos m) k = refl
opened_at (negsuc m) k = refl

fresh_pipe :
    (k : Proc)
    → above k.table + 1 < 1000
    → IsPipe
        (files_of k)
        (files_of (record k { table = (above k.table, 10) ∷ (above k.table + 1, 11) ∷ k.table }))
        (pos (above k.table))
        (pos (above k.table + 1))
fresh_pipe k h = record {
  reader_fits = omega arith;
  writer_fits = omega arith;
  apart = ground arith;
  reader_free = fd_lookup-above (above k.table) k.table (omega arith);
  writer_free = fd_lookup-above (above k.table + 1) k.table (omega arith);
  reads = 10;
  writes = 11;
  opened = λ n. opened_at n k;
}

put_files :
    (m : ℕ) (n : ℤ) (f : ℕ) (w : Machine Proc)
    → files_of (put_fd (pos m) (some f) w).1.kernel n
      ≡ (if eq_ℤ n (pos m) then some f else files_of w.kernel n)
put_files m (pos n) f w = refl
put_files m (negsuc n) f w = refl

pipe_opens :
    (reader writer : ℤ) (rc : ℕ) (w w' : Machine Proc)
    → make_pipe w ≡ ((pos rc, reader, writer), w')
    → IsPipe (files_of w.kernel) (files_of w'.kernel) reader writer
pipe_opens reader writer rc w w' e = elim (Bool-cases (ltb (above w.kernel.table + 1) 1000)) [
  | inl small ↦
      let r = above w.kernel.table in
      let k = rw small at e in
      let er : pos r ≡ reader = cc in
      let ew : pos (r + 1) ≡ writer = cc in
      let es : record w {
        kernel = record w.kernel { table = (r, 10) ∷ (r + 1, 11) ∷ w.kernel.table };
      }
          ≡ w' =
        cc in
      rw (← er, ← ew, ← es) (fresh_pipe w.kernel (ground arith))
  | inr large ↦ let k = rw large at e in absurd (cc)
]

pub close_closes :
    (fd n : ℤ) (w : Machine Proc)
    → files_of (close_one fd w).1.kernel n ≡ (if eq_ℤ n fd then none else files_of w.kernel n)
close_closes (pos m) (pos n) w = fd_lookup-without_fd m n w.kernel.table
close_closes (pos m) (negsuc n) w = refl
close_closes (negsuc m) (pos n) w = refl
close_closes (negsuc m) (negsuc n) w = ground arith

close_leaves_children :
    (fd n : ℤ) (w : Machine Proc) → children_of (close_one fd w).1.kernel n ≡ children_of w.kernel n
close_leaves_children (pos m) n w = refl
close_leaves_children (negsuc m) n w = refl

dup_duplicates :
    (fd newfd : ℤ) (f g : ℕ) (w : Machine Proc)
    → files_of w.kernel fd ≡ some f
    → files_of w.kernel newfd ≡ some g
    → ((dup_onto fd newfd w).0 ≡ newfd)
      × ((n : ℤ)
          → files_of (dup_onto fd newfd w).1.kernel n
            ≡ (if eq_ℤ n newfd then some f else files_of w.kernel n))
dup_duplicates fd (pos m) f g w a b = rw a (refl, λ n. put_files m n f w)
dup_duplicates fd (negsuc m) f g w a b = cc

pipe_leaves_children :
    (n : ℤ) (w : Machine Proc) → children_of (make_pipe w).1.kernel n ≡ children_of w.kernel n
pipe_leaves_children n w = elim (Bool-cases (ltb (above w.kernel.table + 1) 1000)) [
  | inl e ↦ rw e refl
  | inr e ↦ rw e refl
]

-- the three outcomes of fork
fork_one-cases :
    (w : Machine Proc)
    → (fork_one w ≡ (pos 0, w))
      ⊎ ((length w.kernel.kids < 1000)
          × (fork_one w ≡ (
            pos (suc (length w.kernel.kids)),
            record w { kernel = record w.kernel { kids = length w.kernel.kids ∷ w.kernel.kids } },
          )))
      ⊎ (fork_one w ≡ (minus_one, w))
fork_one-cases w = elim (Bool-cases w.kernel.is_child) [
  | inl c ↦ inl (rw c refl)
  | inr c ↦ elim (Bool-cases (not w.kernel.is_full && ltb (length w.kernel.kids) 1000)) [
    | inl e ↦ inr (inl (ground (arith, e), rw (c, e) refl))
    | inr e ↦ inr (inr (rw (c, e) refl))
  ]
]

fork_leaves_files :
    (n : ℤ) (w : Machine Proc) → files_of (fork_one w).1.kernel n ≡ files_of w.kernel n
fork_leaves_files (negsuc m) w = refl
fork_leaves_files (pos m) w = elim (fork_one-cases w) [
  | inl e ↦ ap (λ x. fd_lookup m x.1.kernel.table) e
  | inr (inl e) ↦ ap (λ x. fd_lookup m x.1.kernel.table) e.1
  | inr (inr e) ↦ ap (λ x. fd_lookup m x.1.kernel.table) e
]

fork_in_range : (w : Machine Proc) → InInt (fork_one w).0 × (minus_one ≤ℤ (fork_one w).0)
fork_in_range w = elim (fork_one-cases w) [
  | inl e ↦ rw e (omega arith)
  | inr (inl e) ↦ let b = e.0 in rw e.1 (omega arith)
  | inr (inr e) ↦ rw e (omega arith)
]

fork_adds_child :
    (n : ℤ) (p : ℕ) (w : Machine Proc)
    → (fork_one w).0 ≡ pos (suc p)
    → children_of (fork_one w).1.kernel n ≡ one_at (pos (suc p)) n + children_of w.kernel n
fork_adds_child n p w h = elim (fork_one-cases w) [
  | inl e ↦ ground (arith, e)
  | inr (inl e) ↦ let q : length w.kernel.kids ≡ p = ground (arith, e.1, h) in rw (e.1, q) refl
  | inr (inr e) ↦ cc
]

pub small_system-Keeps : Keeps files_of children_of small_system
small_system-Keeps = record {
  piped = pipe_opens;
  pipe_children = pipe_leaves_children;
  closed = close_closes;
  close_children = close_leaves_children;
  duplicated = dup_duplicates;
  fork_files = fork_leaves_files;
  fork_fits = fork_in_range;
  fork_children = fork_adds_child;
  wait_files = λ pid n w. refl;
  wait_children = λ n p w e h. counted-without_kid p n w.kernel.kids h;
}
