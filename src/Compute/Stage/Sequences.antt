-- ===== src/Compute/Stage/Sequences.antt =====
-- Sequences of raw events through the compute stage.
use lynx_monitor.Prelude.{
  ℕ, ◌+◌, ◌≤◌, ◌<◌, Text, List, [], ◌∷◌, ◌++◌, ◌≡◌, length, if◌then◌else◌, text_eq, text_equality,
  Result, ok, raise, arith, Bool-cases, inl, inr, subst,
}
use lynx_monitor.Value.{int, pos, Fields, get_value}
use lynx_monitor.Contracts.{Python, processed_topic}
use lynx_monitor.Bus.{EventBus}
use lynx_monitor.Runtime.RawEvents.{number_at}
use lynx_monitor.Compute.Confirmed.{Arithmetic}
use lynx_monitor.Compute.Stage.{OctopusComputeV2}
use lynx_monitor.Compute.Stage.Handlers.{Services, symbol_of}
use lynx_monitor.Compute.Stage.Ticks.{process_raw_event}
use lynx_monitor.Compute.Stage.Emission.{Emitted}
use lynx_monitor.Compute.Stage.Handled.{IsProcessed, process_raw_event-IsProcessed}

-- The numbers of the events grow, from above `n` to `m` at most.
abbrev pub IsIncreasing : ℕ → List Fields → ℕ → Type 0
IsIncreasing n [] m = n ≤ m
IsIncreasing n (e ∷ es) m =
    (k : ℕ) × (get_value e "seq" ≡ int (pos k)) × (n < k) × IsIncreasing k es m

IsIncreasing-below :
    (n k : ℕ) (es : List Fields) (m : ℕ) → n ≤ k → IsIncreasing k es m → IsIncreasing n es m
IsIncreasing-below n k [] m le h = omega arith
IsIncreasing-below n k (e ∷ es) m le (i, s, lt, h) = (i, s, omega arith, h)

IsIncreasing-append :
    (n : ℕ) (es : List Fields) (k : ℕ) (fs : List Fields) (m : ℕ)
    → IsIncreasing n es k
    → IsIncreasing k fs m
    → IsIncreasing n (es ++ fs) m
IsIncreasing-append n [] k fs m h g = IsIncreasing-below n k fs m h g
IsIncreasing-append n (e ∷ es) k fs m (i, s, lt, h) g =
    (i, s, lt, IsIncreasing-append i es k fs m h g)

Emitted-IsIncreasing :
    {B : Type 0} (bus : EventBus B) (symbol : Text) (es : List Fields) (n m : ℕ) (b after : B)
    → m ≡ n + length es
    → Emitted bus symbol es n b after
    → IsIncreasing n es m
Emitted-IsIncreasing bus symbol [] n m b after e h = omega arith
Emitted-IsIncreasing bus symbol (f ∷ es) n m b after e h = (
  n + 1,
  h.1.0,
  omega arith,
  Emitted-IsIncreasing bus symbol es (n + 1) m (bus.publish processed_topic symbol f b).1 after
      (omega arith) h.1.1,
)

module _ {B K D : Type 0} (py : Python) (arithmetic : Arithmetic) (services : Services B K D) where
  abbrev pub events_of : Result (List Fields) → List Fields
  events_of (ok events) = events
  events_of (raise e) = []

  abbrev pub own_events :
      (symbol : Text) → (raw_event : Fields) → Result (List Fields) → List Fields
  own_events symbol raw_event result =
      if text_eq (symbol_of py arithmetic services raw_event) symbol then events_of result else []

  -- The raw events, each with its day, one after the other, also after one that raises: what is returned for those of the
  -- symbol, and the stage
  unfoldable pub process_raw_events :
      (symbol : Text)
      → List (Fields × Text)
      → OctopusComputeV2 B K
      → List Fields × OctopusComputeV2 B K
  unfolding text_eq
  process_raw_events symbol [] stage = ([], stage)
  process_raw_events symbol ((raw_event, trade_date) ∷ calls) stage =
      let (result, next) = process_raw_event py arithmetic services raw_event trade_date stage in
      let (events, last) = process_raw_events symbol calls next in
      (own_events symbol raw_event result ++ events, last)

  events_of-IsIncreasing :
      (raw_event : Fields) (trade_date : Text) (stage : OctopusComputeV2 B K)
      (r : Result (List Fields) × OctopusComputeV2 B K)
      → IsProcessed py arithmetic services stage raw_event trade_date r
      → IsIncreasing
          (number_at stage.seq_by_symbol (symbol_of py arithmetic services raw_event))
          (events_of r.0)
          (number_at r.1.seq_by_symbol (symbol_of py arithmetic services raw_event))
  events_of-IsIncreasing raw_event trade_date stage (ok events, next) h =
      Emitted-IsIncreasing services.bus (symbol_of py arithmetic services raw_event) events _ _
        stage.bus next.bus h.1.1 h.1.0
  events_of-IsIncreasing raw_event trade_date stage (raise e, next) h = h.1

  own_events-IsIncreasing :
      (symbol : Text) (raw_event : Fields) (trade_date : Text) (stage : OctopusComputeV2 B K)
      (r : Result (List Fields) × OctopusComputeV2 B K)
      → IsProcessed py arithmetic services stage raw_event trade_date r
      → IsIncreasing
          (number_at stage.seq_by_symbol symbol)
          (own_events symbol raw_event r.0)
          (number_at r.1.seq_by_symbol symbol)
  own_events-IsIncreasing symbol raw_event trade_date stage r h =
      elim (Bool-cases (text_eq (symbol_of py arithmetic services raw_event) symbol)) [
        | inl own ↦ rw own (
            subst
              (λ t.
                IsIncreasing (number_at stage.seq_by_symbol t) (events_of r.0)
                  (number_at r.1.seq_by_symbol t))
              ((text_equality.same_iff (symbol_of py arithmetic services raw_event) symbol).0 own)
              (events_of-IsIncreasing raw_event trade_date stage r h))
        | inr other ↦ rw other (omega (arith, h.0 symbol other))
      ]

  -- Over any sequence of raw events of any symbols, also where some raise, the numbers of the events that are returned for a
  -- symbol grow strictly: no number is used twice.
  pub process_raw_events-IsIncreasing :
      (symbol : Text) (calls : List (Fields × Text)) (stage : OctopusComputeV2 B K)
      → IsIncreasing
          (number_at stage.seq_by_symbol symbol)
          (process_raw_events symbol calls stage).0
          (number_at (process_raw_events symbol calls stage).1.seq_by_symbol symbol)
  unfolding process_raw_events
  process_raw_events-IsIncreasing symbol [] stage = omega arith
  process_raw_events-IsIncreasing symbol ((raw_event, trade_date) ∷ calls) stage =
      let r = process_raw_event py arithmetic services raw_event trade_date stage in
      IsIncreasing-append (number_at stage.seq_by_symbol symbol) (own_events symbol raw_event r.0)
        (number_at r.1.seq_by_symbol symbol) (process_raw_events symbol calls r.1).0 _
        (own_events-IsIncreasing symbol raw_event trade_date stage r
          (process_raw_event-IsProcessed py arithmetic services stage raw_event trade_date))
        (process_raw_events-IsIncreasing symbol calls r.1)
