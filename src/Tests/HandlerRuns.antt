-- ===== src/Tests/HandlerRuns.antt =====
-- The theorems on the calls of Lua handlers, each at one queue.
use luaposix.Base.{
  List, [], cast_int, false, lit, none, pos, refl, replicate, some, true, ℤ, ◌∷◌, ◌≡◌,
}
use luaposix.Lua.{Machine, Value, err, function, integer, nil, ok, run_error, string}
use luaposix.Signal.Handlers.{
  LuaCalls, NilFails, Running, call_nil, handle_signals, handlers_lost_after_error,
  nil_error_blocks_signals, registry_of,
}
use luaposix.Signal.Install.{Registry, SignalCalls, find_handler, p_signal, sig_dfl}
use luaposix.Signal.Invariant.{initial-Holds}
use luaposix.Signal.Queue.{SignalState, drain, full, initial}
use luaposix.Signal.System.{
  Act, Calm, Represents, abstract_acts, acts, acts-Represents, delivers, sets, ticks,
}
use luaposix.Tests.Fixtures.{lua54}

-- the signals 2 and 15 wait
abbrev two_waiting : SignalState
two_waiting = record initial {
  signal_count = 2;
  signals = pos 2 ∷ pos 15 ∷ replicate 23 (pos 0);
  hook = true;
}

-- the calls so far, latest first
abbrev Calls : Type 0
Calls = List (Value × ℤ)

abbrev two_handlers : List (Value × Value)
two_handlers = (integer (pos 2), function 20) ∷ (integer (pos 15), function 150) ∷ []

abbrev ready : Machine (Running Calls)
ready = record {
  errno = pos 0;
  kernel = record {
    statics = two_waiting;
    registry = record { handlers = two_handlers; system = [] };
  };
}

abbrev noted : Value → ℤ → Machine (Registry Calls) → Machine (Registry Calls)
noted h n m = record m { kernel = record (m.kernel) { system = (h, n) ∷ m.kernel.system } }

-- a function returns; what is no function cannot be called
abbrev calm_lua : LuaCalls Calls
calm_lua = record {
  invoke = λ h n m. (
    (elim h [ function f ↦ none | _ ↦ some (string (lit "attempt to call a nil value")) ]),
    noted h n m,
  );
}

-- every call fails, with a value that depends on what is called
abbrev error_of : Value → Value → Value
error_of v nil = string (lit "attempt to call a nil value")
error_of v h = v

abbrev failing : Value → LuaCalls Calls
failing v = record { invoke = λ h n m. (some (error_of v h), noted h n m) }

abbrev said_no : Value
said_no = string (lit "no")

failing-NilFails : NilFails ⦃lua = lua54⦄ (failing said_no)
failing-NilFails = record { message = λ n m. (lit "attempt to call a nil value", refl) }

-- the state of the registry after the first call
abbrev noted_first : Machine (Registry Calls)
noted_first = noted (function 150) (pos 15) (registry_of ready)

handlers_lost_after_error_example :
    let (r, after) = handle_signals ⦃lua = lua54⦄ (failing said_no) ready in
    (r ≡ ok tt)
    × (registry_of after
        ≡ call_nil ⦃lua = lua54⦄ (failing said_no) (drain 1 two_waiting.signals) noted_first)
    × (after.kernel.statics.signal_count ≡ 0)
unfolding find_handler
handlers_lost_after_error_example =
    handlers_lost_after_error ⦃lua = lua54⦄ (failing said_no) 1 (lit "no") ready noted_first
      failing-NilFails refl refl

nil_error_blocks_signals_example :
    let (r, after) = handle_signals ⦃lua = lua54⦄ (failing nil) ready in
    (r ≡ err (run_error (lit "attempt to index")))
    × (after.kernel.statics.mask ≡ full)
    × (after.kernel.statics.hook ≡ false)
unfolding find_handler
nil_error_blocks_signals_example =
    nil_error_blocks_signals ⦃lua = lua54⦄ (failing nil) 0 ready noted_first refl refl

abbrev calm_signals : SignalCalls Calls
calm_signals = record {
  sigaction = λ sig h fl m. ((pos 0, sig_dfl), m);
  kill = λ pid sig m. (pos 0, m);
  killpg = λ pgrp sig m. (pos 0, m);
  raise_signal = λ sig m. (pos 0, m);
  sigterm = pos 15;
}

abbrev loaded : Machine (Running Calls)
loaded = record {
  errno = pos 0;
  kernel = record { statics = initial; registry = record { handlers = []; system = [] } };
}

-- a handler for the signal 2 is set after the first 2 came and before the second
abbrev session : List Act
session =
    delivers (pos 2)
    ∷ sets (integer (pos 2) ∷ function 20 ∷ [])
    ∷ sets (integer (pos 15) ∷ function 150 ∷ [])
    ∷ delivers (pos 15)
    ∷ ticks
    ∷ delivers (pos 2)
    ∷ []

session-Calm : Calm ⦃lua = lua54⦄ calm_signals calm_lua session ([], registry_of loaded)
unfolding p_signal cast_int find_handler
session-Calm = (tt, (tt, (tt, (tt, ((refl, (refl, tt)), (tt, tt))))))

acts-Represents_example :
    ((acts ⦃lua = lua54⦄ calm_signals calm_lua session loaded).0 ≡ [])
    × Represents ⦃lua = lua54⦄ calm_signals calm_lua
        (acts ⦃lua = lua54⦄ calm_signals calm_lua session loaded).1
        (abstract_acts ⦃lua = lua54⦄ calm_signals calm_lua session ([], registry_of loaded))
acts-Represents_example =
    acts-Represents ⦃lua = lua54⦄ calm_signals calm_lua session loaded ([], registry_of loaded)
      session-Calm (initial-Holds, refl)
