-- ===== src/Stdio/Handles.antt =====
-- ext/posix/stdio.c: the handles against the files that are open.
use luaposix.Base.{
  Bool, Bytes, List, Option, [], arith, cast_int, eq_ℤ, false, get_elem?, length, none, pos, refl,
  some, suc, true, zero, ℕ, ℤ, ◌++◌, ◌+◌, ◌<◌, ◌==◌, ◌∷◌, ◌≡◌,
}
use luaposix.Helpers.Args.{argtypeerror, checkint, checknargs, checkstring}
use luaposix.Helpers.Results.{pusherror}
use luaposix.Lua.{Host, Machine, integer, string, userdata, ◌>>=◌}
use luaposix.Stdio.Bindings.{
  Files, StdioCalls, close_pointer, file_or_error, fileresult, new_handle, p_fdopen, put_handle,
  set_handle, stdio_fclose,
}

abbrev pub one_if : Bool → ℕ
one_if true = 1
one_if false = 0

-- how many handles hold a file
abbrev pub held : ℕ → List (Option ℕ) → ℕ
held g [] = 0
held g (none ∷ handles) = held g handles
held g (some f ∷ handles) = one_if (g == f) + held g handles

-- what the C library promises of its streams: `opened` counts how often a FILE pointer is open
pub record OpensAndCloses {W : Type 0} (opened : W → ℕ → ℕ) (os : StdioCalls W) : Type 0 where
  pub granted :
      (fd : ℤ) (mode : Bytes) (f g : ℕ) (w w' : Machine W)
      → os.fdopen fd mode w ≡ (some f, w')
      → opened w'.kernel g ≡ one_if (g == f) + opened w.kernel g
  pub refused :
      (fd : ℤ) (mode : Bytes) (g : ℕ) (w w' : Machine W)
      → os.fdopen fd mode w ≡ (none, w')
      → opened w'.kernel g ≡ opened w.kernel g
  -- a file that is open is closed, whatever fclose returns
  pub closed :
      (f g : ℕ) (w : Machine W)
      → 0 < opened w.kernel f
      → one_if (g == f) + opened (os.fclose f w).1.kernel g ≡ opened w.kernel g

-- A handle is made, or the function at its closef is called, once or again.
pub data Use : Type 0 where
  opens : ℤ → Bytes → Use
  closes : ℕ → Use

held-append :
    (g : ℕ) (f : Option ℕ) (hs : List (Option ℕ))
    → held g (hs ++ (f ∷ [])) ≡ held g hs + held g (f ∷ [])
held-append g none [] = refl
held-append g (some f) [] = ground arith
held-append g f (none ∷ hs) = held-append g f hs
held-append g f (some h ∷ hs) = omega (arith, held-append g f hs)

held-set_handle :
    (g id f : ℕ) (hs : List (Option ℕ))
    → get_elem? hs id ≡ some (some f)
    → one_if (g == f) + held g (set_handle id none hs) ≡ held g hs
held-set_handle g id f [] e = ground arith
held-set_handle g zero f (none ∷ hs) e = ground arith
held-set_handle g zero f (some h ∷ hs) e = ground arith
held-set_handle g (suc id) f (none ∷ hs) e = held-set_handle g id f hs e
held-set_handle g (suc id) f (some h ∷ hs) e = omega (arith, held-set_handle g id f hs e)

module _ ⦃lua : Host⦄ {W : Type 0} (os : StdioCalls W) where
  abbrev pub after_use : Use → Machine (Files W) → Machine (Files W)
  after_use (opens fd mode) w = (p_fdopen os (integer fd ∷ string mode ∷ []) w).1
  after_use (closes id) w = (stdio_fclose os (userdata id ∷ []) w).1

  abbrev pub after_uses : List Use → Machine (Files W) → Machine (Files W)
  after_uses [] w = w
  after_uses (u ∷ us) w = after_uses us (after_use u w)

module _ ⦃lua : Host⦄ {W : Type 0} (opened : W → ℕ → ℕ) (os : StdioCalls W)
    (law : OpensAndCloses opened os) where
  -- the files that are open are those that the handles hold, and those that were open before
  abbrev pub Accounted : (ℕ → ℕ) → Files W → Type 0
  Accounted others k = (g : ℕ) → opened k.system g ≡ held g k.handles + others g

  abbrev inner : Machine (Files W) → Machine W
  inner w = record { errno = w.errno; kernel = w.kernel.system }

  -- the new handle has the pointer, NULL included
  made-Accounted :
      (fd : ℤ) (mode : Bytes) (others : ℕ → ℕ) (w : Machine (Files W)) (o : Option ℕ)
      (v : Machine W)
      → Accounted others w.kernel
      → os.fdopen fd mode (inner w) ≡ (o, v)
      → Accounted others (record { handles = w.kernel.handles ++ (o ∷ []); system = v.kernel })
  made-Accounted fd mode others w none v h e g =
      omega (arith, h g, law.refused fd mode g (inner w) v e, held-append g none w.kernel.handles)
  made-Accounted fd mode others w (some f) v h e g =
      omega
        (arith, h g, law.granted fd mode f g (inner w) v e, held-append g (some f) w.kernel.handles)

  file_or_error_same :
      (id : ℕ) (o : Option ℕ) (w : Machine (Files W))
      → (file_or_error os id o w).1.kernel ≡ w.kernel
  unfolding pusherror ◌>>=◌
  file_or_error_same id none w = refl
  file_or_error_same id (some f) w = refl

  fdopen-Accounted :
      (fd : ℤ) (mode : Bytes) (others : ℕ → ℕ) (w : Machine (Files W))
      → Accounted others w.kernel
      → Accounted others (after_use os (opens fd mode) w).kernel
  unfolding p_fdopen checkint checkstring checknargs new_handle ◌>>=◌
  fdopen-Accounted fd mode others w h g =
      rw (file_or_error_same (length w.kernel.handles) (os.fdopen (cast_int fd) mode (inner w)).0 _)
        (made-Accounted (cast_int fd) mode others w (os.fdopen (cast_int fd) mode (inner w)).0
          (os.fdopen (cast_int fd) mode (inner w)).1 h refl g)

  fileresult_same : (b : Bool) (w : Machine (Files W)) → (fileresult os b w).1.kernel ≡ w.kernel
  unfolding pusherror ◌>>=◌
  fileresult_same true w = refl
  fileresult_same false w = refl

  -- a file that a handle holds is open
  held_is_open :
      (id f : ℕ) (handles : List (Option ℕ))
      → get_elem? handles id ≡ some (some f)
      → 0 < held f handles
  held_is_open zero f [] e = ground arith
  held_is_open (suc id) f [] e = ground arith
  held_is_open zero f (none ∷ handles) e = ground arith
  held_is_open zero f (some h ∷ handles) e = ground arith
  held_is_open (suc id) f (none ∷ handles) e = held_is_open id f handles e
  held_is_open (suc id) f (some h ∷ handles) e = omega (arith, held_is_open id f handles e)

  -- a handle that holds a file is emptied, another is left alone
  close_pointer-Accounted :
      (id : ℕ) (f : Option ℕ) (others : ℕ → ℕ) (w : Machine (Files W))
      → get_elem? w.kernel.handles id ≡ some f
      → Accounted others w.kernel
      → Accounted others (close_pointer os id f w).1.kernel
  unfolding close_pointer put_handle ◌>>=◌
  close_pointer-Accounted id none others w e h g = h g
  close_pointer-Accounted id (some f) others w e h g =
      rw (fileresult_same (eq_ℤ (os.fclose f (inner w)).0 (pos 0)) _) (
        omega (
          arith,
          h g,
          held-set_handle g id f w.kernel.handles e,
          law.closed f g (inner w) (omega (arith, h f, held_is_open id f w.kernel.handles e)),
        ))

  at_handle-Accounted :
      (id : ℕ) (f : Option (Option ℕ)) (others : ℕ → ℕ) (w : Machine (Files W))
      → get_elem? w.kernel.handles id ≡ f
      → Accounted others w.kernel
      → Accounted others (after_use os (closes id) w).kernel
  unfolding stdio_fclose argtypeerror ◌>>=◌
  at_handle-Accounted id none others w e h = rw (e, after_use) h
  at_handle-Accounted id (some f) others w e h =
      rw (e, after_use) (close_pointer-Accounted id f others w e h)

  use-Accounted :
      (u : Use) (others : ℕ → ℕ) (w : Machine (Files W))
      → Accounted others w.kernel
      → Accounted others (after_use os u w).kernel
  use-Accounted (opens fd mode) others w h = fdopen-Accounted fd mode others w h
  use-Accounted (closes id) others w h =
      at_handle-Accounted id (get_elem? w.kernel.handles id) others w refl h

  -- On a system that opens and closes streams: after any sequence of calls of fdopen and of the
  -- function that closes a handle, on any handles and as often as one likes, every FILE pointer is
  -- open as often as the handles hold it, besides the times that it was open before.
  pub handles_hold_what_is_open :
      (us : List Use) (others : ℕ → ℕ) (w : Machine (Files W))
      → Accounted others w.kernel
      → Accounted others (after_uses os us w).kernel
  handles_hold_what_is_open [] others w h = h
  handles_hold_what_is_open (u ∷ us) others w h =
      handles_hold_what_is_open us others (after_use os u w) (use-Accounted u others w h)
