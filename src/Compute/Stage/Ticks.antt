-- ===== src/Compute/Stage/Ticks.antt =====
-- backend/beast_market/pipeline.py: the handlers of `OctopusComputeV2` for ticks, and the one that chooses among the handlers.
use lynx_monitor.Prelude.{
  ℕ, Text, Bool, true, false, not, ◌||◌, Option, none, some, List, [], ◌∷◌, ◌++◌, if◌then◌else◌,
  codes, text_eq, text_equality, Result, ok, fail, runtime_error,
}
use lynx_monitor.Prelude.Dict.{get, put}
use lynx_monitor.Symbols.{is_empty}
use lynx_monitor.Value.{Value, Fields, find, item}
use lynx_monitor.Contracts.{Python}
use lynx_monitor.Contracts.Events.{is_text}
use lynx_monitor.Compute.Alerts.{is_minute_bar_source, is_trade_tick_alert_source}
use lynx_monitor.Compute.Minutes.{Tick, minute_bucket, iso_timestamp_seconds}
use lynx_monitor.Compute.Confirmed.{Arithmetic}
use lynx_monitor.Compute.Changes.{apply_tick_to_state}
use lynx_monitor.Compute.Stage.{OctopusComputeV2, Job, Handler, ◌>>=◌, finished, edit, next_number}
use lynx_monitor.Compute.Stage.Handlers.{
  Services, latest_bar_write_interval_seconds, bod_of, cache_state, publish, note, symbol_of,
  source_ts_of, alert_payload, process_broker_queue, process_l2_order_book,
  process_minute_bar_event,
}

module _ {B K D : Type 0} (py : Python) (arithmetic : Arithmetic) (services : Services B K D) where
  abbrev pub is_due : Option Text → Option Value → (minute_ts : Text) → (now_value : Value) → Bool
  is_due (some previous_minute) (some previous_flush) minute_ts now_value =
      not (text_eq previous_minute minute_ts)
      || arithmetic.at_least (arithmetic.minus now_value previous_flush)
          latest_bar_write_interval_seconds
  is_due previous_minute previous_flush minute_ts now_value = true

  abbrev pub flushed : Text → (minute_ts : Text) → Value → Job B K → Job B K
  flushed symbol minute_ts now_value j = record j {
    stage = record j.stage {
      latest_bar_flushed_minute_by_symbol =
          put j.stage.latest_bar_flushed_minute_by_symbol symbol minute_ts;
      latest_bar_flush_at_by_symbol = put j.stage.latest_bar_flush_at_by_symbol symbol now_value;
    };
  }

  abbrev pub flush_at : Text → Value → (minute_ts : Text) → Handler B K Bool
  flush_at symbol now_value minute_ts j =
      if is_due (get j.stage.latest_bar_flushed_minute_by_symbol symbol)
        (get j.stage.latest_bar_flush_at_by_symbol symbol) minute_ts now_value
      then (ok true, flushed symbol minute_ts now_value j)
      else (ok false, j)

  unfoldable pub should_publish_latest_bar : (symbol timestamp : Text) → Handler B K Bool
  unfolding minute_bucket iso_timestamp_seconds get put text_eq
  should_publish_latest_bar symbol timestamp = if is_empty timestamp then finished false else (do
    minute_ts ← (λ j. (minute_bucket services.datetimes services.is_after timestamp, j))
    flush_at symbol
        (iso_timestamp_seconds services.datetimes services.is_after services.seconds services.now
          timestamp)
        minute_ts)

  -- The number of an alert, if there is one
  abbrev pub number_alert : Text → Option Fields → Handler B K (Option (Fields × ℕ))
  number_alert symbol none = finished none
  number_alert symbol (some alert) = do seq ← next_number symbol; finished (some (alert, seq))

  abbrev pub publish_alert :
      (symbol source_ts : Text) → Option (Fields × ℕ) → Handler B K (List Fields)
  publish_alert symbol source_ts none = finished []
  publish_alert symbol source_ts (some (alert, seq)) = do
    event ← (λ j.
        publish py arithmetic services (codes "big_trade_alert") symbol seq source_ts
          (alert_payload py arithmetic services alert j.state) j)
    finished (event ∷ [])

  abbrev pub publish_state : (symbol source_ts : Text) → ℕ → Handler B K Fields
  publish_state symbol source_ts seq j =
      publish py arithmetic services (codes "snapshot") symbol seq source_ts j.state j

  abbrev pub apply_tick :
      (for_minute_bars : Bool) → (raw_event : Fields) → Text → Handler B K (Tick × Option Fields)
  apply_tick for_minute_bars raw_event trade_date j =
      edit
        (apply_tick_to_state py arithmetic services.datetimes services.is_after services.now
          services.thresholds
          (bod_of py arithmetic services (symbol_of py arithmetic services raw_event) j)
          for_minute_bars raw_event trade_date)
        j

  -- The rest of `process_raw_event_with_state`, for a tick that is neither a minute bar nor a trade
  unfoldable pub process_tick : (raw_event : Fields) → Text → Handler B K (List Fields)
  unfolding get text_eq find
  process_tick raw_event trade_date =
      let symbol = symbol_of py arithmetic services raw_event in
      let source_ts = source_ts_of py arithmetic services raw_event in
      (do
        snapshot_seq ← next_number symbol
        (tick, alert) ← apply_tick true raw_event trade_date
        numbered ← number_alert symbol alert
        _ ← cache_state py arithmetic services trade_date symbol
        event ← publish_state symbol source_ts snapshot_seq
        alerts ← publish_alert symbol source_ts numbered
        _ ← note py arithmetic services symbol source_ts
        finished (event ∷ alerts))

  abbrev pub publish_latest_bar : (symbol source_ts : Text) → Bool → Handler B K (List Fields)
  publish_latest_bar symbol source_ts false = finished []
  publish_latest_bar symbol source_ts true = do
    seq ← next_number symbol
    event ← publish_state symbol source_ts seq
    finished (event ∷ [])

  abbrev pub cache_if_any : (trade_date symbol : Text) → List Fields → Handler B K (Unit {0})
  cache_if_any trade_date symbol [] = finished tt
  cache_if_any trade_date symbol (e ∷ es) = cache_state py arithmetic services trade_date symbol

  unfoldable pub process_trade_tick_alert_event :
      (raw_event : Fields) → Text → Handler B K (List Fields)
  unfolding get text_eq find
  process_trade_tick_alert_event raw_event trade_date =
      let symbol = symbol_of py arithmetic services raw_event in
      let source_ts = source_ts_of py arithmetic services raw_event in
      (do
        (tick, alert) ← apply_tick false raw_event trade_date
        due ← should_publish_latest_bar symbol tick.timestamp
        snapshots ← publish_latest_bar symbol source_ts due
        numbered ← number_alert symbol alert
        alerts ← publish_alert symbol source_ts numbered
        _ ← cache_if_any trade_date symbol (snapshots ++ alerts)
        _ ← note py arithmetic services symbol source_ts
        finished (snapshots ++ alerts))

  -- The tests of `raw_event["kind"]`
  unfoldable pub process_kind : Value → (raw_event : Fields) → Text → Handler B K (List Fields)
  unfolding text_eq is_minute_bar_source is_trade_tick_alert_source
  process_kind kind raw_event trade_date =
      if is_text (codes "broker_queue") kind
      then process_broker_queue py arithmetic services raw_event trade_date
      else if is_text (codes "l2_order_book") kind
      then process_l2_order_book py arithmetic services raw_event trade_date
      else if not (is_text (codes "tick") kind)
      then finished []
      else if is_minute_bar_source py raw_event
      then process_minute_bar_event py arithmetic services raw_event trade_date
      else if is_trade_tick_alert_source py raw_event
      then process_trade_tick_alert_event raw_event trade_date
      else process_tick raw_event trade_date

  -- An event without a kind is a KeyError; that an event has a symbol is left to the one who calls.
  unfoldable pub process_raw_event_with_state :
      (raw_event : Fields) → Text → Handler B K (List Fields)
  unfolding find process_kind
  process_raw_event_with_state raw_event trade_date = do
    kind ← edit (λ state. (item raw_event "kind", state))
    process_kind kind raw_event trade_date

  -- The state that was looked up is the one in `state_by_symbol`, so that the changes of the handler stay there.
  abbrev pub stored :
      Text → Result (List Fields) × Job B K → Result (List Fields) × OctopusComputeV2 B K
  stored symbol (result, j) =
      (result, record j.stage { state_by_symbol = put j.stage.state_by_symbol symbol j.state })

  abbrev pub process_found :
      (raw_event : Fields)
      → Text
      → Option Fields
      → OctopusComputeV2 B K
      → Result (List Fields) × OctopusComputeV2 B K
  process_found raw_event trade_date none stage = (
    fail runtime_error (
        codes "BOD state must be preloaded before realtime processing: "
        ++ symbol_of py arithmetic services raw_event),
    stage,
  )
  process_found raw_event trade_date (some state) stage =
      stored (symbol_of py arithmetic services raw_event) (
        process_raw_event_with_state raw_event trade_date (record { state = state; stage = stage }))

  unfoldable pub process_raw_event :
      (raw_event : Fields)
      → Text
      → OctopusComputeV2 B K
      → Result (List Fields) × OctopusComputeV2 B K
  unfolding get put text_eq find process_raw_event_with_state
  process_raw_event raw_event trade_date stage =
      process_found raw_event trade_date
        (get stage.state_by_symbol (symbol_of py arithmetic services raw_event)) stage
