-- ===== src/Hydration.antt =====
-- backend/beast_market/symbol_runtime.py: `HistoricalHydrationService`, which lets one thread at a time load
-- a key. A thread that calls `hydrate` waits, loads, and is finished; what it loads, and whether the loader
-- returns or raises, is the same to the service. `turn` gives one thread the chance to take its next step,
-- which is a block under the condition's lock: a waiting thread that finds its key active goes on waiting.
pub mod Exclusive
use lynx_monitor.Prelude.{
  ℕ, zero, suc, Text, Bool, true, false, not, ◌&&◌, ◌↔◌, ◌≡◌, List, [], ◌∷◌, ◌++◌, any, select,
  if◌then◌else◌, PythonEq, ◌==◌, text_eq, text_eq_iff, arith,
}

pub record HydrationKey : Type 0 where
  pub symbol : Text
  pub data_type : Text
  pub effective_trade_date : Text

unfoldable pub same_key : HydrationKey → HydrationKey → Bool
unfolding text_eq
same_key j k =
    text_eq j.symbol k.symbol
    && text_eq j.data_type k.data_type
    && text_eq j.effective_trade_date k.effective_trade_date

-- Where a call of `hydrate` is.
pub data Thread : Type 0 where
  waiting loading : HydrationKey → Thread
  finished : Thread

pub record HistoricalHydrationService : Type 0 where
  pub active : List HydrationKey
  pub threads : List Thread

abbrev pub is_active : List HydrationKey → HydrationKey → Bool
is_active active k = any (λ j. same_key j k) active

-- The next step of a thread: the first block of `hydrate`, or the `finally`.
unfoldable pub step : List HydrationKey → Thread → List HydrationKey × Thread
unfolding same_key
step active (waiting k) =
    if is_active active k then (active, waiting k) else (k ∷ active, loading k)
step active (loading k) = (select (λ j. not (same_key j k)) active, finished)
step active finished = (active, finished)

unfoldable pub turn_of : ℕ → List HydrationKey → List Thread → List HydrationKey × List Thread
unfolding step
turn_of i active [] = (active, [])
turn_of zero active (t ∷ ts) = ((step active t).0, (step active t).1 ∷ ts)
turn_of (suc i) active (t ∷ ts) = let rest = turn_of i active ts in (rest.0, t ∷ rest.1)

-- A new call of `hydrate`, or a turn of a thread.
pub data Event : Type 0 where
  call : HydrationKey → Event
  turn : ℕ → Event

unfoldable pub happen : Event → HistoricalHydrationService → HistoricalHydrationService
unfolding turn_of
happen (call k) s = record s { threads = waiting k ∷ s.threads }
happen (turn i) s = record {
  active = (turn_of i s.active s.threads).0;
  threads = (turn_of i s.active s.threads).1;
}

unfoldable pub run_events : List Event → HistoricalHydrationService → HistoricalHydrationService
unfolding happen
run_events [] s = s
run_events (e ∷ es) s = run_events es (happen e s)

abbrev pub idle : HistoricalHydrationService
idle = record { active = []; threads = [] }
