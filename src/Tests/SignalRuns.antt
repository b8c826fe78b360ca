-- ===== src/Tests/SignalRuns.antt =====
-- The theorems on signals, each at one run.
use luaposix.Base.{
  [], arith, cast_int, eq_ℤ, eq_ℤ_iff, if◌then◌else◌, lit, none, pos, refl, some, ℤ, ◌∷◌, ◌≡◌,
}
use luaposix.Lua.{Machine, function, integer, nil, ok, string, wrapped}
use luaposix.Signal.Dispositions.{
  Remembers, foreign_handler_is_lost, install_by_name_is_lost, install_then_reset,
  reinstall_returns_new, system_of,
}
use luaposix.Signal.EndToEnd.{installed_handler_is_called}
use luaposix.Signal.Handlers.{LuaCalls, Running, handle_signals, registry_of}
use luaposix.Signal.Install.{
  Handler, Registry, SignalCalls, find_handler, foreign, p_signal, postpone, sig_dfl,
}
use luaposix.Signal.Invariant.{initial-Holds}
use luaposix.Signal.Queue.{initial, sig_postpone}
use luaposix.Tests.Fixtures.{lua54}

-- a kernel with one disposition for each signal
abbrev Dispositions : Type 0
Dispositions = ℤ → Handler

abbrev kernel : SignalCalls Dispositions
kernel = record {
  sigaction = λ sig h fl m.
      ((pos 0, m.kernel sig), record m { kernel = λ k. if eq_ℤ k sig then h else m.kernel k });
  kill = λ pid sig m. (pos 0, m);
  killpg = λ pgrp sig m. (pos 0, m);
  raise_signal = λ sig m. (pos 0, m);
  sigterm = pos 15;
}

kernel-Remembers : Remembers kernel
kernel-Remembers = record {
  last_installed = λ sig h h' fl fl' m e. ground (arith, eq_ℤ_iff sig sig);
}

abbrev start : Machine (Registry Dispositions)
start = record { errno = pos 0; kernel = record { handlers = []; system = λ k. sig_dfl } }

abbrev caught : Machine (Registry Dispositions)
caught = record { errno = pos 0; kernel = record { handlers = []; system = λ k. postpone } }

abbrev inherited : Machine (Registry Dispositions)
inherited = record { errno = pos 0; kernel = record { handlers = []; system = λ k. foreign 7 } }

install_then_reset_example :
    let after = (p_signal ⦃lua = lua54⦄ kernel (integer (pos 2) ∷ function 5 ∷ []) start).1 in
    (p_signal ⦃lua = lua54⦄ kernel (integer (pos 2) ∷ nil ∷ []) after).0 ≡ ok (function 5 ∷ [])
unfolding cast_int
install_then_reset_example =
    install_then_reset ⦃lua = lua54⦄ kernel (pos 2) 5 start _ _ _ _ kernel-Remembers refl refl

reinstall_returns_new_example :
    (p_signal ⦃lua = lua54⦄ kernel (integer (pos 2) ∷ function 5 ∷ []) caught).0
    ≡ ok (function 5 ∷ [])
reinstall_returns_new_example = reinstall_returns_new ⦃lua = lua54⦄ kernel (pos 2) 5 caught _ refl

install_by_name_is_lost_example :
    let after =
      (p_signal ⦃lua = lua54⦄ kernel
        (string (lit "10") ∷ function 5 ∷ [])
        start).1.kernel.handlers in
    (find_handler (string (lit "10")) after ≡ function 5)
    × (find_handler (integer (pos 10)) after
        ≡ find_handler (integer (pos 10)) start.kernel.handlers)
unfolding cast_int
install_by_name_is_lost_example =
    install_by_name_is_lost ⦃lua = lua54⦄ kernel (lit "10") (pos 10) (pos 10) 5 start _ _ refl refl

foreign_handler_is_lost_example :
    let (r, w') = p_signal ⦃lua = lua54⦄ kernel (integer (pos 2) ∷ nil ∷ []) inherited in
    (r ≡ ok (wrapped (pos 2) 7 ∷ []))
    × (system_of (p_signal ⦃lua = lua54⦄ kernel (integer (pos 2) ∷ wrapped (pos 2) 7 ∷ []) w').1
        ≡ (kernel.sigaction
            (pos 2)
            sig_dfl
            (pos 0)
            (kernel.sigaction (pos 2) sig_dfl (pos 0) (system_of inherited)).1).1)
foreign_handler_is_lost_example =
    foreign_handler_is_lost ⦃lua = lua54⦄ kernel (pos 2) 7 _ inherited _ _ (omega arith) refl refl

-- Lua functions that do nothing; what is no function cannot be called
abbrev idle_lua : LuaCalls Dispositions
idle_lua = record {
  invoke = λ h n m.
      ((elim h [ function f ↦ none | _ ↦ some (string (lit "attempt to call a nil value")) ]), m);
}

-- where a signal is delivered after a call of `signal`, with the queue empty
abbrev delivered_after : Machine (Registry Dispositions) → ℤ → Machine (Running Dispositions)
delivered_after installed n = record {
  errno = installed.errno;
  kernel = record { statics = (sig_postpone n initial).0; registry = installed.kernel };
}

installed_handler_is_called_example :
    let installed = (p_signal ⦃lua = lua54⦄ kernel (integer (pos 2) ∷ function 7 ∷ []) start).1 in
    registry_of (handle_signals ⦃lua = lua54⦄ idle_lua (delivered_after installed (pos 2))).1
    ≡ installed
installed_handler_is_called_example =
    installed_handler_is_called ⦃lua = lua54⦄ kernel idle_lua (pos 2) 7 initial start sig_dfl
      (record { errno = pos 0; kernel = λ k. if eq_ℤ k (pos 2) then postpone else sig_dfl })
      initial-Holds (omega arith) refl refl
