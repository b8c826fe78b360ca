-- ===== src/Signal/EndToEnd.antt =====
-- ext/posix/signal.c: Psignal, sig_postpone and sig_handle one after the other.
use mathlib.Core.Path.{subst}
use luaposix.Base.{InInt, [], ap, cast_int_id, none, pos, sym, ℕ, ℤ, ◌∙◌, ◌∷◌, ◌≡◌}
use luaposix.Lua.{Host, Machine, function, integer}
use luaposix.Signal.Dispositions.{find_handler-set_handler, install_state, system_of}
use luaposix.Signal.Handlers.{
  AllReturn, LuaCalls, Running, call_each, handle_signals, handle_signals_calls_each, registry_of,
}
use luaposix.Signal.Install.{Handler, Registry, SignalCalls, find_handler, p_signal, postpone}
use luaposix.Signal.Invariant.{Holds, emptied-Holds, sig_postpone-Holds}
use luaposix.Signal.Queue.{SignalState, sig_postpone}

module _ ⦃lua : Host⦄ {W : Type 0} (os : SignalCalls W) (calls : LuaCalls W) where
  -- Where the queue is empty, sigaction succeeds and the call of a Lua function with the signal
  -- returns: after this function is installed for a signal that fits an int, and this signal is
  -- delivered, sig_handle calls exactly the function with the signal, and nothing else.
  pub installed_handler_is_called :
      (n : ℤ) (f : ℕ) (s : SignalState) (w : Machine (Registry W)) (old : Handler) (m : Machine W)
      → Holds s []
      → InInt n
      → os.sigaction n postpone (pos 0) (system_of w) ≡ ((pos 0, old), m)
      → (calls.invoke (function f) n (p_signal os (integer n ∷ function f ∷ []) w).1).0 ≡ none
      → let installed = (p_signal os (integer n ∷ function f ∷ []) w).1 in
        let waiting : Machine (Running W) = record {
          errno = installed.errno;
          kernel = record { statics = (sig_postpone n s).0; registry = installed.kernel };
        } in
        registry_of (handle_signals calls waiting).1 ≡ (calls.invoke (function f) n installed).1
  installed_handler_is_called n f s w old m h i e p =
      let installed = (p_signal os (integer n ∷ function f ∷ []) w).1 in
      let waiting : Machine (Running W) = record {
        errno = installed.errno;
        kernel = record { statics = (sig_postpone n s).0; registry = installed.kernel };
      } in
      let (kept, _) = sig_postpone-Holds n s [] h in
      let (taken, _) = emptied-Holds (sig_postpone n s).0 (n ∷ []) kept in
      let stored = install_state os n f w old m (rw (cast_int_id n i) e) in
      let found : find_handler (integer n) installed.kernel.handlers ≡ function f =
        ap (λ (u : Machine (Registry W)). find_handler (integer n) u.kernel.handlers) stored
        ∙ find_handler-set_handler n (function f) w.kernel.handlers in
      let returns = ap (λ v. (calls.invoke v n installed).0) found ∙ p in
      let (_, same, _) =
        handle_signals_calls_each calls waiting
          (subst (λ signals. AllReturn calls signals installed) (sym taken) (returns, tt)) in
      same
      ∙ ap (λ signals. call_each calls signals installed) taken
      ∙ ap (λ v. (calls.invoke v n installed).1) found
