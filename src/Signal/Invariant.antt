-- ===== src/Signal/Invariant.antt =====
-- ext/posix/signal.c: what it means that the queue holds a backlog, the signals that wait.
use luaposix.Base.{
  List, [], ap, arith, false, if◌then◌else◌, length, ltb, none, pos, refl, suc, zero, ℕ, ℤ, ◌<◌,
  ◌∷◌, ◌≡◌, ◌≤◌,
}
use luaposix.Signal.Queue.{
  SignalState, drain, initial, load_at, sig_postpone, signal_queue_max, store_at,
}

pub load_at-store_at : (a : List ℤ) (n : ℕ) (v : ℤ) → n < length a → load_at (store_at a n v) n ≡ v
load_at-store_at [] n v h = absurd (omega arith)
load_at-store_at (x ∷ a) zero v h = refl
load_at-store_at (x ∷ a) (suc n) v h = load_at-store_at a n v (omega arith)

pub length-store_at : (a : List ℤ) (n : ℕ) (v : ℤ) → length (store_at a n v) ≡ length a
length-store_at [] n v = refl
length-store_at (x ∷ a) zero v = refl
length-store_at (x ∷ a) (suc n) v = ap suc (length-store_at a n v)

load_at-store_at_below :
    (a : List ℤ) (n m : ℕ) (v : ℤ) → m < n → load_at (store_at a n v) m ≡ load_at a m
load_at-store_at_below [] n m v h = refl
load_at-store_at_below (x ∷ a) zero m v h = absurd (omega arith)
load_at-store_at_below (x ∷ a) (suc n) zero v h = refl
load_at-store_at_below (x ∷ a) (suc n) (suc m) v h = load_at-store_at_below a n m v (omega arith)

-- A write behind the queue does not change what it holds.
pub drain-store_at : (m n : ℕ) (a : List ℤ) (v : ℤ) → m ≤ n → drain m (store_at a n v) ≡ drain m a
unfolding drain
drain-store_at zero n a v h = refl
drain-store_at (suc m) n a v h =
    cc (load_at-store_at_below a n m v (omega arith), drain-store_at m n a v (omega arith))

drain-push :
    (n : ℕ) (a : List ℤ) (v : ℤ) → n < length a → drain (suc n) (store_at a n v) ≡ v ∷ drain n a
unfolding drain
drain-push n a v h = cc (load_at-store_at a n v h, drain-store_at n n a v (omega arith))

pub record Holds (s : SignalState) (backlog : List ℤ) : Type 0 where
  pub count : s.signal_count ≡ length backlog
  pub fits : length backlog ≤ signal_queue_max
  pub room : length s.signals ≡ signal_queue_max
  pub contents : drain s.signal_count s.signals ≡ backlog
  pub not_deferred : s.defer_signal ≡ 0
  pub none_pending : s.signal_pending ≡ pos 0
  -- no wakeup is lost: the hook is installed exactly while something waits
  pub hooked : s.hook ≡ ltb 0 s.signal_count

-- what a queue of bounded length does with one more signal
abbrev pub accept : ℤ → List ℤ → List ℤ
accept i backlog = if ltb (length backlog) signal_queue_max then i ∷ backlog else backlog

pub sig_postpone-Holds :
    (i : ℤ) (s : SignalState) (q : List ℤ)
    → Holds s q
    → Holds (sig_postpone i s).0 (accept i q) × ((sig_postpone i s).1 ≡ none)
unfolding sig_postpone
sig_postpone-Holds i s q h = ground (
  arith,
  drain-push s.signal_count s.signals i,
  length-store_at s.signals s.signal_count i,
  h.contents,
)

-- the static variables when the queue has been emptied
abbrev pub emptied : SignalState → SignalState
emptied s = record s { signal_count = 0; hook = false }

pub emptied-Holds :
    (s : SignalState) (q : List ℤ)
    → Holds s q
    → (drain s.signal_count s.signals ≡ q) × Holds (emptied s) []
unfolding drain
emptied-Holds s q h = ground (arith, h.contents)

pub empty_of_unhooked : (s : SignalState) (q : List ℤ) → Holds s q → s.hook ≡ false → q ≡ []
empty_of_unhooked s [] h e = refl
empty_of_unhooked s (x ∷ q) h e = ground (arith, h.hooked, h.count)

pub initial-Holds : Holds initial []
unfolding drain
initial-Holds = ground arith
