-- ===== src/Signal/System.antt =====
-- ext/posix/signal.c as a whole: signals that are delivered, runs of the debug hook, and calls of
-- Psignal from Lua, in any order.
use mathlib.Core.Path.{subst}
use luaposix.Base.{Bool, List, [], ap, false, none, refl, some, sym, true, ℤ, ◌++◌, ◌∙◌, ◌∷◌, ◌≡◌}
use luaposix.Lua.{Args, Host, Machine}
use luaposix.Signal.Handlers.{
  AllReturn, LuaCalls, Running, call_each, handle_signals, handle_signals_calls_each, registry_of,
  set_statics,
}
use luaposix.Signal.Install.{Registry, SignalCalls, p_signal}
use luaposix.Signal.Invariant.{Holds, accept, emptied-Holds, empty_of_unhooked, sig_postpone-Holds}
use luaposix.Signal.Queue.{SignalState, sig_postpone}

pub data Act : Type 0 where
  delivers : ℤ → Act
  ticks : Act
  -- a call of `signal` with its arguments
  sets : Args → Act

module _ ⦃lua : Host⦄ {W : Type 0} (os : SignalCalls W) (calls : LuaCalls W) where
  -- where the hook is installed, Lua calls it
  abbrev pub run_hook : Bool → Machine (Running W) → List ℤ × Machine (Running W)
  run_hook true w = ([], (handle_signals calls w).1)
  run_hook false w = ([], w)

  -- the signals that are raised again, and the process after
  unfoldable pub act : Act → Machine (Running W) → List ℤ × Machine (Running W)
  act (delivers i) w =
      let (s, again) = sig_postpone i w.kernel.statics in
      ((elim again [ none ↦ [] | some j ↦ j ∷ [] ]), (set_statics s w).1)
  act ticks w = run_hook w.kernel.statics.hook w
  act (sets args) w =
      let m = (p_signal os args (registry_of w)).1 in
      ([], record { errno = m.errno; kernel = record (w.kernel) { registry = m.kernel } })

  unfoldable pub acts : List Act → Machine (Running W) → List ℤ × Machine (Running W)
  acts [] w = ([], w)
  acts (a ∷ rest) w =
      let (again, w') = act a w in let (again', w'') = acts rest w' in (again ++ again', w'')

  -- the same for a stack of signals beside the table of handlers
  abbrev pub Abstract : Type 0
  Abstract = List ℤ × Machine (Registry W)

  abbrev pub abstract_act : Act → Abstract → Abstract
  abstract_act (delivers i) (q, m) = (accept i q, m)
  abstract_act ticks (q, m) = ([], call_each calls q m)
  abstract_act (sets args) (q, m) = (q, (p_signal os args m).1)

  abbrev pub abstract_acts : List Act → Abstract → Abstract
  abstract_acts [] a = a
  abstract_acts (x ∷ rest) a = abstract_acts rest (abstract_act x a)

  -- no handler that a run of the hook calls raises an error
  abbrev pub CalmAct : Act → Abstract → Type 0
  CalmAct ticks (q, m) = AllReturn calls q m
  CalmAct _ a = Unit {0}

  abbrev pub Calm : List Act → Abstract → Type 0
  Calm [] a = Unit {0}
  Calm (x ∷ rest) a = CalmAct x a × Calm rest (abstract_act x a)

  -- the static variables hold the stack, and the rest is the same
  abbrev pub Represents : Machine (Running W) → Abstract → Type 0
  Represents w (q, m) = Holds w.kernel.statics q × (registry_of w ≡ m)

  tick-Represents :
      (b : Bool) (w : Machine (Running W)) (q : List ℤ) (m : Machine (Registry W))
      → w.kernel.statics.hook ≡ b
      → AllReturn calls q m
      → Represents w (q, m)
      → ((run_hook b w).0 ≡ []) × Represents (run_hook b w).1 ([], call_each calls q m)
  tick-Represents true w q m on p (h, e) =
      let (taken, left) = emptied-Holds w.kernel.statics q h in
      let (_, same, statics) = handle_signals_calls_each calls w (
        subst (λ signals. AllReturn calls signals (registry_of w)) (sym taken)
          (subst (AllReturn calls q) (sym e) p)) in
      (
        refl,
        (
          subst (λ (s : SignalState). Holds s []) (sym statics) left,
          same
              ∙ ap (λ signals. call_each calls signals (registry_of w)) taken
              ∙ ap (call_each calls q) e,
        ),
      )
  tick-Represents false w q m off p (h, e) =
      let nothing = empty_of_unhooked w.kernel.statics q h off in
      (
        refl,
        (
          subst (Holds w.kernel.statics) nothing h,
          e ∙ ap (λ signals. call_each calls signals m) (sym nothing),
        ),
      )

  act-Represents :
      (x : Act) (w : Machine (Running W)) (a : Abstract)
      → CalmAct x a
      → Represents w a
      → ((act x w).0 ≡ []) × Represents (act x w).1 (abstract_act x a)
  unfolding act
  act-Represents (delivers i) w (q, m) p (h, e) =
      let (kept, quiet) = sig_postpone-Holds i w.kernel.statics q h in
      (rw (quiet, act) refl, (kept, e))
  act-Represents ticks w (q, m) p r = tick-Represents w.kernel.statics.hook w q m refl p r
  act-Represents (sets args) w (q, m) p (h, e) = (refl, (h, ap (λ n. (p_signal os args n).1) e))

  -- Where no Lua handler that a run of the hook calls raises an error: whatever signals are
  -- delivered, whenever the debug hook runs, and whatever calls of `signal` are made in between, the
  -- process is at every time that of a stack of at most 25 signals beside the table of handlers. A
  -- delivered signal is put on the stack unless it is full; a run of the hook calls, the latest
  -- signal first, the handler that the table then has for each signal, and empties the stack. No
  -- signal is raised again.
  pub acts-Represents :
      (xs : List Act) (w : Machine (Running W)) (a : Abstract)
      → Calm xs a
      → Represents w a
      → ((acts xs w).0 ≡ []) × Represents (acts xs w).1 (abstract_acts xs a)
  unfolding acts
  acts-Represents [] w a p r = (refl, r)
  acts-Represents (x ∷ xs) w a p r =
      let (quiet, kept) = act-Represents x w a p.0 r in
      let (quiet', kept') = acts-Represents xs (act x w).1 (abstract_act x a) p.1 kept in
      (cc (quiet, quiet'), kept')
