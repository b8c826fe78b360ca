-- ===== src/Signal/Handlers.antt =====
-- ext/posix/signal.c: sig_handle with the Lua stack, on which the value of an error stays behind its
-- message. Lua code does not reach the static variables, and a signal that it raises waits behind
-- the full mask.
use luaposix.Base.{
  Bytes, List, Option, [], ap, false, none, pos_part, refl, some, suc, zero, ℕ, ℤ, ◌∷◌, ◌≡◌,
}
use luaposix.Helpers.Sequences.{index_value}
use luaposix.Lua.{
  Call, Exec, Host, LuaType, Machine, Value, call, err, integer, nil, number, ok, pure, run_error,
  string, ◌>>=◌, ◌>>◌,
}
use luaposix.Signal.Install.{Registry, find_handler}
use luaposix.Signal.Invariant.{emptied}
use luaposix.Signal.Queue.{SignalState, drain, full, load_at}

pub record Running (W : Type 0) : Type 0 where
  pub statics : SignalState
  pub registry : Registry W

pub record LuaCalls (W : Type 0) : Type 0 where
  -- lua_pcall of a value with a signal: none, or the value of the error
  pub invoke : Value → ℤ → Call (Registry W) (Option Value)

-- what is on the top of the stack when an iteration begins
pub data Top : Type 0 where
  handlers_table : Top
  raised : Value → Top

abbrev pub registry_of : {W : Type 0} → Machine (Running W) → Machine (Registry W)
registry_of w = record { errno = w.errno; kernel = w.kernel.registry }

abbrev pub on_registry : {W A : Type 0} → Call (Registry W) A → Call (Running W) A
on_registry c w =
    let (a, m) = c (registry_of w) in
    (a, record { errno = m.errno; kernel = record (w.kernel) { registry = m.kernel } })

abbrev pub set_statics : {W : Type 0} → SignalState → Exec (Running W) (Unit {0})
set_statics s w = (ok tt, record w { kernel = record (w.kernel) { statics = s } })

abbrev pub get_statics : {W : Type 0} → Exec (Running W) SignalState
get_statics w = (ok w.kernel.statics, w)

module _ ⦃lua : Host⦄ {W : Type 0} (os : LuaCalls W) where
  -- the error stays where the table was; lua_tostring has made a string of a number
  abbrev pub top_after : Top → Option Value → Top
  top_after top none = top
  top_after top (some (number x)) = raised (string (lua.number_to_string x))
  top_after top (some v) = raised v

  -- lua_gettable (L, -2); a signal is a positive number
  abbrev pub look_up : Top → ℤ → Exec (Running W) Value
  look_up handlers_table signalno w =
      (ok (find_handler (integer signalno) w.kernel.registry.handlers), w)
  look_up (raised v) signalno w = (index_value (pos_part signalno) v, w)

  -- `while (signal_count--)`
  unfoldable pub call_handlers : ℕ → Top → Exec (Running W) (Unit {0})
  unfolding ◌>>=◌ index_value find_handler
  call_handlers zero top = pure tt
  call_handlers (suc n) top = do
    s ← get_statics
    set_statics (record s { signal_count = n })
    let signalno = load_at s.signals n
    handler ← look_up top signalno
    error ← call (on_registry (os.invoke handler signalno))
    call_handlers n (top_after top error)

  unfoldable pub handle_signals : Exec (Running W) (Unit {0})
  unfolding ◌>>=◌ call_handlers
  handle_signals = do
    s ← get_statics
    set_statics (record s { mask = full; hook = false })
    call_handlers s.signal_count handlers_table
    s' ← get_statics
    set_statics (record s' { signal_count = 0; mask = s.mask })

  -- each signal with the handler that the table has for it then
  abbrev pub call_each : List ℤ → Machine (Registry W) → Machine (Registry W)
  call_each [] m = m
  call_each (n ∷ signals) m =
      call_each signals (os.invoke (find_handler (integer n) m.kernel.handlers) n m).1

  -- nil in the place of each handler
  abbrev pub call_nil : List ℤ → Machine (Registry W) → Machine (Registry W)
  call_nil [] m = m
  call_nil (n ∷ signals) m = call_nil signals (os.invoke nil n m).1

  -- each of these calls returns
  abbrev pub AllReturn : List ℤ → Machine (Registry W) → Type 0
  AllReturn [] m = Unit {0}
  AllReturn (n ∷ signals) m =
      ((os.invoke (find_handler (integer n) m.kernel.handlers) n m).0 ≡ none)
      × AllReturn signals (os.invoke (find_handler (integer n) m.kernel.handlers) n m).1

  loop_calls_each :
      (n : ℕ) (w : Machine (Running W))
      → AllReturn (drain n w.kernel.statics.signals) (registry_of w)
      → let (r, after) = call_handlers n handlers_table w in
        let s = w.kernel.statics in
        (r ≡ ok tt)
        × (registry_of after ≡ call_each (drain n s.signals) (registry_of w))
        × (record (after.kernel.statics) { signal_count = 0 } ≡ record s { signal_count = 0 })
  unfolding call_handlers drain ◌>>=◌
  loop_calls_each zero w p = (refl, refl, refl)
  loop_calls_each (suc n) w p = rw p.0 (loop_calls_each n _ p.1)

  -- Where each handler that is called returns: sig_handle calls for each signal in the queue, the
  -- latest first, the handler that the table has for it at that time, the table as the handlers
  -- before it left it; the queue is then empty, the hook is taken away, and the mask is restored.
  pub handle_signals_calls_each :
      (w : Machine (Running W))
      → AllReturn (drain w.kernel.statics.signal_count w.kernel.statics.signals) (registry_of w)
      → let (r, after) = handle_signals w in
        let s = w.kernel.statics in
        (r ≡ ok tt)
        × (registry_of after ≡ call_each (drain s.signal_count s.signals) (registry_of w))
        × (after.kernel.statics ≡ emptied s)
  unfolding handle_signals ◌>>=◌
  handle_signals_calls_each w p =
      let s = w.kernel.statics in
      let (r, same, kept) =
        loop_calls_each s.signal_count
          (record w {
            kernel = record (w.kernel) { statics = record s { mask = full; hook = false } };
          })
          p in
      rw r (refl, same, ap (λ (t : SignalState). record t { mask = s.mask }) kept)

  -- what Lua does with a call of nil: an error whose value is a string
  pub record NilFails : Type 0 where
    pub message :
        (n : ℤ) (m : Machine (Registry W))
        → (msg : Bytes) × ((os.invoke nil n m).0 ≡ some (string msg))

  after_message :
      (n : ℕ) (msg : Bytes) (w : Machine (Running W))
      → NilFails
      → let (r, after) = call_handlers n (raised (string msg)) w in
        (r ≡ ok tt)
        × (registry_of after ≡ call_nil (drain n w.kernel.statics.signals) (registry_of w))
  unfolding call_handlers drain index_value ◌>>=◌
  after_message zero msg w f = (refl, refl)
  after_message (suc n) msg w f =
      let (msg', e) = f.message (load_at w.kernel.statics.signals n) (registry_of w) in
      rw e (after_message n msg' _ f)

  -- Where at least one signal waits, and the handler of the latest raises an error with a string
  -- as its value: none of the other handlers is called. sig_handle calls nil in the place of each,
  -- and their signals leave the queue.
  pub handlers_lost_after_error :
      (n : ℕ) (msg : Bytes) (w : Machine (Running W)) (m : Machine (Registry W))
      → NilFails
      → w.kernel.statics.signal_count ≡ suc n
      → let signals = w.kernel.statics.signals in
        os.invoke
            (find_handler (integer (load_at signals n)) w.kernel.registry.handlers)
            (load_at signals n)
            (registry_of w)
          ≡ (some (string msg), m)
        → let (r, after) = handle_signals w in
          (r ≡ ok tt)
          × (registry_of after ≡ call_nil (drain n signals) m)
          × (after.kernel.statics.signal_count ≡ 0)
  unfolding handle_signals call_handlers ◌>>=◌
  handlers_lost_after_error n msg w m f c e =
      let blocked = record (w.kernel.statics) { signal_count = n; hook = false; mask = full } in
      let now : Machine (Running W) = record {
        errno = m.errno;
        kernel = record { statics = blocked; registry = m.kernel };
      } in
      let (r, same) = after_message n msg now f in rw (c, e, r) (refl, same, refl)

  -- Where at least two signals wait, and the handler of the latest raises an error with nil as its
  -- value: sig_handle itself raises an error, every signal stays blocked, and the hook is not
  -- installed.
  pub nil_error_blocks_signals :
      (n : ℕ) (w : Machine (Running W)) (m : Machine (Registry W))
      → w.kernel.statics.signal_count ≡ suc (suc n)
      → let signals = w.kernel.statics.signals in
        os.invoke
            (find_handler (integer (load_at signals (suc n))) w.kernel.registry.handlers)
            (load_at signals (suc n))
            (registry_of w)
          ≡ (some nil, m)
        → let (r, after) = handle_signals w in
          (r ≡ err (run_error (lua.index_error LuaType.tnil)))
          × (after.kernel.statics.mask ≡ full)
          × (after.kernel.statics.hook ≡ false)
  unfolding handle_signals call_handlers index_value ◌>>=◌
  nil_error_blocks_signals n w m c e = rw (c, e) (refl, refl, refl)
