-- ===== src/Signal/Queue.antt =====
-- ext/posix/signal.c: the static variables of the module, and sig_postpone. The handler
-- is installed with a full sa_mask, so no signal is delivered while one of them runs. Signal/Handlers
-- has sig_handle.
use luaposix.Base.{
  Bool, List, Option, [], eq_ℤ, false, if◌then◌else◌, none, not, pos, replicate, some, suc, true,
  zero, ℕ, ℤ, ◌&&◌, ◌+◌, ◌-◌, ◌==◌, ◌∷◌,
}

pub data Mask : Type 0 where
  full : Mask
  some_signals : ℕ → Mask

pub record SignalState : Type 0 where
  pub signal_pending : ℤ
  pub defer_signal : ℕ
  pub signal_count : ℕ
  pub signals : List ℤ
  -- whether lua_sethook has sig_handle installed
  pub hook : Bool
  pub mask : Mask

abbrev pub signal_queue_max : ℕ
signal_queue_max = 25

-- a write into the array; one out of bounds has no place in the model, and is proved not to happen
abbrev pub store_at : List ℤ → ℕ → ℤ → List ℤ
store_at [] i v = []
store_at (x ∷ xs) zero v = v ∷ xs
store_at (x ∷ xs) (suc i) v = x ∷ store_at xs i v

abbrev pub load_at : List ℤ → ℕ → ℤ
load_at [] i = pos 0
load_at (x ∷ xs) zero = x
load_at (x ∷ xs) (suc i) = load_at xs i

-- the body between `defer_signal++` and `defer_signal--`, and the test after it: the signal that
-- is raised again, if any
enqueue : ℤ → SignalState → SignalState × Option ℤ
enqueue i s =
    let deferred = s.defer_signal + 1 in
    let s' = record s {
      defer_signal = deferred - 1;
      signals = store_at s.signals s.signal_count i;
      signal_count = s.signal_count + 1;
      hook = true;
    } in
    (
      s',
      if s'.defer_signal == 0 && not (eq_ℤ s'.signal_pending (pos 0))
          then some s'.signal_pending
          else none,
    )

unfoldable pub sig_postpone : ℤ → SignalState → SignalState × Option ℤ
unfolding enqueue
sig_postpone i s =
    if not (s.defer_signal == 0)
    then (record s { signal_pending = i }, none)
    else if s.signal_count == signal_queue_max
    then (s, none)
    else enqueue i s

-- the signals in the order in which `while (signal_count--)` takes them
unfoldable pub drain : ℕ → List ℤ → List ℤ
drain zero signals = []
drain (suc n) signals = load_at signals n ∷ drain n signals

-- the static variables as they are loaded
abbrev pub initial : SignalState
initial = record {
  signal_pending = pos 0;
  defer_signal = 0;
  signal_count = 0;
  signals = replicate signal_queue_max (pos 0);
  hook = false;
  mask = some_signals 0;
}
