-- ===== src/Compute/Stage/Handlers.antt =====
-- backend/beast_market/pipeline.py: the handlers of `OctopusComputeV2` for raw events. An event that is made holds the state as
-- it is then, also where the code shares the dict.
use lynx_monitor.Prelude.{
  ℕ, Text, Bool, Option, List, [], ◌∷◌, codes, text_eq, text_equality, Result,
}
use lynx_monitor.Prelude.Dict.{get}
use lynx_monitor.Value.{
  Value, float, finite, pos, dict, Fields, field, end, find, get_value, fields_of,
}
use lynx_monitor.Contracts.{Python}
use lynx_monitor.Bus.{EventBus}
use lynx_monitor.Runtime.{text_of}
use lynx_monitor.Session.{Datetimes}
use lynx_monitor.Compute.Alerts.{BodState}
use lynx_monitor.Compute.Confirmed.{Arithmetic}
use lynx_monitor.Compute.Policy.{Thresholds}
use lynx_monitor.Compute.Changes.{
  apply_minute_bar_to_state, apply_broker_queue_to_state, apply_l2_order_book_to_state,
}
use lynx_monitor.Compute.Stage.{
  Job, Handler, ◌>>=◌, finished, edit, next_number, cache_set_terminal_snapshot, publish_processed,
  note_event,
}

-- What the stage is given: its bus, its cache, the ids and times of a call, and the thresholds
pub record Services (B K D : Type 0) : Type 0 where
  pub bus : EventBus B
  pub set_terminal_snapshot : Text → Text → Fields → K → Result (Unit {0}) × K
  pub datetimes : Datetimes D
  pub is_after : D → D → Bool
  pub seconds : D → Value
  pub now : D
  pub now_iso : Text
  pub fresh_id : Text → Text → ℕ → Text
  pub thresholds : Thresholds

-- LATEST_BAR_WRITE_INTERVAL_SECONDS
abbrev pub latest_bar_write_interval_seconds : Value
latest_bar_write_interval_seconds = float (finite (pos 1) 0)

module _ {B K D : Type 0} (py : Python) (arithmetic : Arithmetic) (services : Services B K D) where
  abbrev pub bod_of : Text → Job B K → Option BodState
  bod_of symbol j = get j.stage.bod_by_symbol symbol

  abbrev pub cache_state : (trade_date symbol : Text) → Handler B K (Unit {0})
  cache_state = cache_set_terminal_snapshot py services.set_terminal_snapshot

  abbrev pub publish : (result_type symbol : Text) → ℕ → Text → Fields → Handler B K Fields
  publish = publish_processed py services.bus services.fresh_id services.now_iso

  abbrev pub note : (symbol source_ts : Text) → Handler B K (Unit {0})
  note = note_event py services.bus services.fresh_id services.now_iso

  -- The number, the snapshot in the cache and the event of a change that has one event; `payload` reads the state
  unfoldable pub deliver :
      (result_type symbol source_ts trade_date : Text)
      → (Fields → Fields)
      → Handler B K (List Fields)
  deliver result_type symbol source_ts trade_date payload = do
    seq ← next_number symbol
    _ ← cache_state trade_date symbol
    event ← (λ j. publish result_type symbol seq source_ts (payload j.state) j)
    _ ← note symbol source_ts
    finished (event ∷ [])

  abbrev pub symbol_of : Fields → Text
  symbol_of raw_event = text_of py (get_value raw_event "symbol")

  abbrev pub source_ts_of : Fields → Text
  source_ts_of raw_event = text_of py (get_value raw_event "source_ts")

  abbrev pub queue_payload : (raw_event queue state : Fields) → Fields
  queue_payload raw_event queue state =
      field "side" (get_value (fields_of (get_value raw_event "payload")) "side")
        (field "broker_queue" (dict queue) (field "freshness" (get_value state "freshness") end))

  abbrev pub alert_payload : (alert state : Fields) → Fields
  alert_payload alert state =
      field "alert" (dict alert) (field "freshness" (get_value state "freshness") end)

  -- `_process_broker_queue`
  unfoldable pub process_broker_queue : (raw_event : Fields) → Text → Handler B K (List Fields)
  unfolding get text_eq find
  process_broker_queue raw_event trade_date = do
    queue ← (λ j.
        edit
          (apply_broker_queue_to_state py arithmetic services.datetimes services.is_after
            services.now (bod_of (symbol_of raw_event) j) raw_event trade_date)
          j)
    deliver (codes "broker_queue") (symbol_of raw_event) (source_ts_of raw_event) trade_date
        (queue_payload raw_event queue)

  -- `_process_l2_order_book`
  unfoldable pub process_l2_order_book : (raw_event : Fields) → Text → Handler B K (List Fields)
  unfolding find
  process_l2_order_book raw_event trade_date = do
    _ ← edit (
        apply_l2_order_book_to_state py arithmetic services.datetimes services.is_after services.now
          raw_event trade_date)
    deliver (codes "l2_order_book") (symbol_of raw_event) (source_ts_of raw_event) trade_date
        (λ state. state)

  unfoldable pub process_minute_bar_event : (raw_event : Fields) → Text → Handler B K (List Fields)
  unfolding find
  process_minute_bar_event raw_event trade_date = do
    _ ← edit (
        apply_minute_bar_to_state py arithmetic services.datetimes services.is_after services.now
          raw_event trade_date)
    deliver (codes "snapshot") (symbol_of raw_event) (source_ts_of raw_event) trade_date
        (λ state. state)
