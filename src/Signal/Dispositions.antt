-- ===== src/Signal/Dispositions.antt =====
-- What posix.signal.signal hands back, and which Lua handler a delivered signal finds.
use luaposix.Base.{
  Bytes, InInt, List, [], ap, arith, cast_int, cast_int_id, eq_bytes_iff, eq_ℤ_iff, lit, pos, refl,
  some, ℕ, ℤ, ◌++◌, ◌∙◌, ◌∷◌, ◌≡◌,
}
use luaposix.Lua.{
  Host, LuaType, Machine, Value, arg_error, err, function, int, integer, nil, number, ok, string,
  wrapped,
}
use luaposix.Signal.Install.{
  Handler, Registry, SignalCalls, find_handler, foreign, p_signal, postpone, set_handler, sig_dfl,
}

abbrev pub system_of : {W : Type 0} → Machine (Registry W) → Machine W
system_of w = record { errno = w.errno; kernel = w.kernel.system }

pub find_handler-set_handler :
    (n : ℤ) (v : Value) (handlers : List (Value × Value))
    → find_handler (integer n) (set_handler (integer n) v handlers) ≡ v
unfolding find_handler set_handler
find_handler-set_handler n v [] = ground (arith, eq_ℤ_iff n n)
find_handler-set_handler n v ((number (int m), w) ∷ handlers) =
    ground (arith, eq_ℤ_iff n m, find_handler-set_handler n v handlers)
find_handler-set_handler n v ((_, w) ∷ handlers) = find_handler-set_handler n v handlers

find_string-set_handler :
    (s : Bytes) (v : Value) (handlers : List (Value × Value))
    → find_handler (string s) (set_handler (string s) v handlers) ≡ v
unfolding find_handler set_handler
find_string-set_handler s v [] = ground (arith, eq_bytes_iff s s)
find_string-set_handler s v ((string t, w) ∷ handlers) =
    ground (arith, eq_bytes_iff s t, eq_bytes_iff s s, find_string-set_handler s v handlers)
find_string-set_handler s v ((number (int m), w) ∷ handlers) =
    ground (arith, find_string-set_handler s v handlers)
find_string-set_handler s v ((_, w) ∷ handlers) = find_string-set_handler s v handlers

-- A write at a string key leaves what the integer keys hold.
pub find_handler-set_string :
    (n : ℤ) (s : Bytes) (v : Value) (handlers : List (Value × Value))
    → find_handler (integer n) (set_handler (string s) v handlers)
      ≡ find_handler (integer n) handlers
unfolding find_handler set_handler
find_handler-set_string n s v [] = refl
find_handler-set_string n s v ((number (int m), w) ∷ handlers) =
    ground (arith, find_handler-set_string n s v handlers)
find_handler-set_string n s v ((string t, w) ∷ handlers) =
    ground (arith, find_handler-set_string n s v handlers)
find_handler-set_string n s v ((_, w) ∷ handlers) = find_handler-set_string n s v handlers

-- The kernel remembers a disposition: right after a call of sigaction that succeeded, another call
-- for the same signal gives back the handler that the first one installed.
pub record Remembers {W : Type 0} (os : SignalCalls W) : Type 0 where
  pub last_installed :
      (sig : ℤ) (h h' : Handler) (fl fl' : ℤ) (m : Machine W)
      → (os.sigaction sig h fl m).0.0 ≡ pos 0
      → (os.sigaction sig h' fl' (os.sigaction sig h fl m).1).0.1 ≡ h

module _ ⦃lua : Host⦄ {W : Type 0} (os : SignalCalls W) where
  -- Where sigaction succeeds and the disposition was sig_postpone already, installing the Lua
  -- function `g` returns `g`, whatever handler it replaces.
  pub reinstall_returns_new :
      (n : ℤ) (g : ℕ) (w : Machine (Registry W)) (m : Machine W)
      → os.sigaction (cast_int n) postpone (pos 0) (system_of w) ≡ ((pos 0, postpone), m)
      → (p_signal os (integer n ∷ function g ∷ []) w).0 ≡ ok (function g ∷ [])
  unfolding p_signal cast_int
  reinstall_returns_new n g w m h =
      ground (arith, find_handler-set_handler n (function g) w.kernel.handlers)

  pub install_state :
      (n : ℤ) (f : ℕ) (w : Machine (Registry W)) (old : Handler) (m : Machine W)
      → os.sigaction (cast_int n) postpone (pos 0) (system_of w) ≡ ((pos 0, old), m)
      → (p_signal os (integer n ∷ function f ∷ []) w).1 ≡ record {
        errno = m.errno;
        kernel = record {
          handlers = set_handler (integer n) (function f) w.kernel.handlers;
          system = m.kernel;
        };
      }
  unfolding p_signal cast_int
  install_state n f w postpone m h = ground arith
  install_state n f w _ m h = ground arith

  reset_result :
      (n : ℤ) (w : Machine (Registry W)) (m : Machine W)
      → os.sigaction (cast_int n) sig_dfl (pos 0) (system_of w) ≡ ((pos 0, postpone), m)
      → (p_signal os (integer n ∷ nil ∷ []) w).0
        ≡ ok (find_handler (integer n) w.kernel.handlers ∷ [])
  unfolding p_signal cast_int
  reset_result n w m h = ground arith

  -- A Lua handler is given back when SIG_DFL takes its place: after `signal (n, f)` and then
  -- `signal (n, nil)`, where both calls of sigaction succeed and the kernel remembers dispositions,
  -- the second call returns `f`.
  pub install_then_reset :
      (n : ℤ) (f : ℕ) (w : Machine (Registry W)) (old last : Handler) (m m' : Machine W)
      → Remembers os
      → os.sigaction (cast_int n) postpone (pos 0) (system_of w) ≡ ((pos 0, old), m)
      → os.sigaction (cast_int n) sig_dfl (pos 0) m ≡ ((pos 0, last), m')
      → let after = (p_signal os (integer n ∷ function f ∷ []) w).1 in
        (p_signal os (integer n ∷ nil ∷ []) after).0 ≡ ok (function f ∷ [])
  install_then_reset n f w old last m m' r h k =
      let latest : last ≡ postpone = cc (
        h,
        k,
        r.last_installed (cast_int n) postpone sig_dfl (pos 0) (pos 0) (system_of w)
            (ap (λ (t : (ℤ × Handler) × Machine W). t.0.0) h),
      ) in
      rw (install_state n f w old m h) (
        reset_result n _ m' (k ∙ ap (λ x. ((pos 0, x), m')) latest)
        ∙ ap (λ v. ok (v ∷ [])) (find_handler-set_handler n (function f) w.kernel.handlers))

  named_state :
      (s : Bytes) (n : ℤ) (f : ℕ) (w : Machine (Registry W)) (old : Handler) (m : Machine W)
      → lua.string_to_integer s ≡ some n
      → os.sigaction (cast_int n) postpone (pos 0) (system_of w) ≡ ((pos 0, old), m)
      → (p_signal os (string s ∷ function f ∷ []) w).1.kernel.handlers
        ≡ set_handler (string s) (function f) w.kernel.handlers
  unfolding p_signal cast_int
  named_state s n f w postpone m h e = ground arith
  named_state s n f w _ m h e = ground arith

  -- Where sigaction succeeds, a Lua handler that is installed for a signal given as a numeric string
  -- is stored under the string, and what the table of handlers holds at every integer key, which is
  -- where sig_handle looks, is what it held before.
  pub install_by_name_is_lost :
      (s : Bytes) (n k : ℤ) (f : ℕ) (w : Machine (Registry W)) (old : Handler) (m : Machine W)
      → lua.string_to_integer s ≡ some n
      → os.sigaction (cast_int n) postpone (pos 0) (system_of w) ≡ ((pos 0, old), m)
      → let after = (p_signal os (string s ∷ function f ∷ []) w).1.kernel.handlers in
        (find_handler (string s) after ≡ function f)
        × (find_handler (integer k) after ≡ find_handler (integer k) w.kernel.handlers)
  install_by_name_is_lost s n k f w old m h e = rw (named_state s n f w old m h e) (
    find_string-set_handler s (function f) w.kernel.handlers,
    find_handler-set_string k s (function f) w.kernel.handlers,
  )

  -- A call with one argument raises an error at the second, and leaves the process and the
  -- handlers as they were.
  pub absent_handler_is_refused :
      (n : ℤ) (w : Machine (Registry W))
      → p_signal os (integer n ∷ []) w ≡ (
        err (
            arg_error 2 (
              lit "function, nil or string"
              ++ (lit " expected, got " ++ lua.typename LuaType.tnone))),
        w,
      )
  unfolding p_signal cast_int
  absent_handler_is_refused n w = ground arith

  -- Where a C handler is replaced by SIG_DFL, for a signal that fits an int: the call returns a
  -- closure round the handler. That closure, given back as the handler, does not install the C
  -- handler: sigaction is called with SIG_DFL again, and the process is as it leaves it.
  pub foreign_handler_is_lost :
      (n : ℤ) (h : ℕ) (old : Handler) (w : Machine (Registry W)) (m m' : Machine W)
      → InInt n
      → os.sigaction n sig_dfl (pos 0) (system_of w) ≡ ((pos 0, foreign h), m)
      → os.sigaction n sig_dfl (pos 0) m ≡ ((pos 0, old), m')
      → let (r, w') = p_signal os (integer n ∷ nil ∷ []) w in
        (r ≡ ok (wrapped n h ∷ []))
        × (system_of (p_signal os (integer n ∷ wrapped n h ∷ []) w').1 ≡ m')
  unfolding p_signal cast_int
  foreign_handler_is_lost n h postpone w m m' i p q = ground (arith, cast_int_id n i)
  foreign_handler_is_lost n h _ w m m' i p q = ground (arith, cast_int_id n i)
