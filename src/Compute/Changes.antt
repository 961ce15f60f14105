-- ===== src/Compute/Changes.antt =====
-- backend/beast_market/pipeline.py: what `OctopusComputeV2` does to the state of a symbol at a raw event, which was validated
-- before: its envelope has its fields. A state has a snapshot.
use lynx_monitor.Prelude.{
  Text, Bool, true, false, not, ◌&&◌, Option, none, some, List, [], ◌∷◌, take, if◌then◌else◌,
  text_eq, Result, ok, raise, string_eq,
}
use lynx_monitor.Value.{
  Value, str, list, bool, dict, nil, Fields, find, item, assign, get_value, fields_of, items_of,
}
use lynx_monitor.Contracts.{Python}
use lynx_monitor.Runtime.{text_of}
use lynx_monitor.Session.{Datetimes, is_regular_hk_trading_minute}
use lynx_monitor.Bars.{or_value, max_alerts, max_minute_bars, last_of, items, values_of}
use lynx_monitor.Compute.{snapshot_trade_date, reference_price, rollover_realtime_session}
use lynx_monitor.Compute.Freshness.{is_full_tick_seed_event, realtime_freshness}
use lynx_monitor.Compute.Alerts.{BodState, make_big_trade_alert, merge_broker_queue}
use lynx_monitor.Compute.Minutes.{
  Tick, fields_of_tick, bars_value, bars_in, prune_future_minute_bars, upsert_minute_bar, bucket_or,
  sort_by_key, is_current_or_future_minute_bar,
}
use lynx_monitor.Compute.Confirmed.{
  Arithmetic, direction_of, minute_bar_from_payload, upsert_confirmed_minute_bar,
}
use lynx_monitor.Compute.Snapshots.{
  snapshot_of_bars, snapshot_after_tick, snapshot_of_day, previous_price, next_snapshot, tick_of,
}
use lynx_monitor.Compute.Books.{normalize_raw_broker_queue, normalize_l2_order_book}
use lynx_monitor.Compute.Policy.{Thresholds, is_big_trade}
use lynx_monitor.Compute.Edit.{Edit, go_on, ◌>>=◌, done, ask, look, write, change, snapshot_of}

module _ {D : Type 0} (py : Python) (arithmetic : Arithmetic) (datetimes : Datetimes D)
    (is_after : D → D → Bool) (now : D) where
  -- state["minute_bars"] = prune_future_minute_bars(state.get("minute_bars", []))
  abbrev pub prune_state : Edit (Unit {0})
  prune_state = write "minute_bars" (λ s.
      bars_value (prune_future_minute_bars datetimes is_after py now (get_value s "minute_bars")))

  abbrev pub refresh :
      (raw_event : Fields)
      → Text
      → (updates_minute_bars updates_latest_bar : Bool) → Edit (Unit {0})
  refresh raw_event trade_date updates_minute_bars updates_latest_bar = do
    freshness ←
        look
          (λ s. realtime_freshness py s raw_event trade_date updates_minute_bars updates_latest_bar)
    write "freshness" (λ s. dict freshness)

  abbrev pub open_day : Text → Tick → Edit (Unit {0})
  open_day trade_date tick = do
    snapshot ← look snapshot_of
    previous_close ← ask (reference_price py arithmetic.numbers snapshot)
    _ ← write "minute_bars" (λ s. list nil)
    _ ← write "alerts" (λ s. list nil)
    write "snapshot"
        (λ s. dict (snapshot_of_day arithmetic trade_date tick previous_close snapshot))

  abbrev pub open_other_day : Text → Tick → Edit (Unit {0})
  open_other_day trade_date tick state =
      if text_eq (snapshot_trade_date py arithmetic.numbers state) trade_date
      then done tt state
      else open_day trade_date tick state

  abbrev pub enter_chart : Text → Tick → Edit (Unit {0})
  enter_chart trade_date tick = do
    bars ← look (λ s.
        upsert_minute_bar datetimes is_after py arithmetic.numbers
          (bars_in datetimes is_after py (get_value s "minute_bars")) tick trade_date)
    write "minute_bars" (λ s. bars_value bars)

  -- state["alerts"] = [alert, *state["alerts"]][:500]
  abbrev pub add_alert : Fields → Edit (Unit {0})
  add_alert alert = do
    alerts ← look (λ s. item s "alerts")
    write "alerts" (λ s. list (items (take max_alerts (dict alert ∷ values_of (items_of alerts)))))

  abbrev pub alert_of : Option BodState → (raw_event : Fields) → Tick → Edit (Option Fields)
  alert_of bod raw_event tick = do
    alert ← ask (make_big_trade_alert py raw_event (fields_of_tick tick) bod)
    _ ← add_alert alert
    done (some alert)

  abbrev pub enters_chart : (raw_event : Fields) → Text → Tick → Bool
  enters_chart raw_event trade_date tick =
      not (is_full_tick_seed_event raw_event)
      && is_regular_hk_trading_minute datetimes tick.timestamp (some trade_date)

  -- From the snapshot on, with the tick's direction
  abbrev pub enter_tick_in_state :
      Thresholds
      → Option BodState
      → (for_minute_bars : Bool) → (raw_event : Fields) → Text
      → Tick
      → Edit (Tick × Option Fields)
  enter_tick_in_state thresholds bod for_minute_bars raw_event trade_date tick = do
    let seed = is_full_tick_seed_event raw_event
    let charts = enters_chart raw_event trade_date tick
    snapshot ←
        look (next_snapshot arithmetic seed (text_of py (get_value raw_event "ingest_ts")) tick)
    _ ← write "snapshot" (λ s. dict snapshot)
    _ ← if charts then enter_chart trade_date tick else done tt
    _ ← write "last_tick" (λ s. dict (fields_of_tick tick))
    _ ← refresh raw_event trade_date (charts && for_minute_bars) (charts && not for_minute_bars)
    alert ←
        if not seed && is_big_trade arithmetic thresholds tick.volume tick.turnover bod
        then alert_of bod raw_event tick
        else done none
    done (tick, alert)

  -- `for_minute_bars` is `minute_freshness_key == "minute_bars"`, whose other value is "latest_bar"
  unfoldable pub apply_tick_to_state :
      Thresholds
      → Option BodState
      → (for_minute_bars : Bool) → (raw_event : Fields) → Text
      → Edit (Tick × Option Fields)
  unfolding go_on find assign prune_future_minute_bars tick_of reference_price snapshot_of_day
      snapshot_trade_date upsert_minute_bar make_big_trade_alert is_full_tick_seed_event
      is_regular_hk_trading_minute snapshot_after_tick realtime_freshness is_big_trade text_eq
  apply_tick_to_state thresholds bod for_minute_bars raw_event trade_date = do
    _ ← prune_state
    tick ← ask (tick_of arithmetic py raw_event)
    _ ← open_other_day trade_date tick
    previous ← look (previous_price arithmetic)
    enter_tick_in_state thresholds bod for_minute_bars raw_event trade_date
        (record tick { direction = direction_of arithmetic tick.price previous })

  -- The bars of a state, sorted, and the snapshot that they make; with no bars nothing changes
  abbrev pub show_bars : Text → List Fields → Edit (Unit {0})
  show_bars updated_at [] = done tt
  show_bars updated_at (bar ∷ bars) = do
    _ ← write "minute_bars" (λ s. bars_value (last_of max_minute_bars (bar ∷ bars)))
    before ← look snapshot_of
    snapshot ← ask (snapshot_of_bars arithmetic updated_at bar bars before)
    write "snapshot" (λ s. dict snapshot)

  unfoldable pub update_snapshot_from_minute_bars : Text → Edit (Unit {0})
  unfolding go_on find assign prune_future_minute_bars sort_by_key snapshot_of_bars
  update_snapshot_from_minute_bars updated_at = do
    bars ← look (λ s.
        sort_by_key (bucket_or datetimes is_after py)
          (prune_future_minute_bars datetimes is_after py now (get_value s "minute_bars")))
    show_bars updated_at bars

  -- The bar with its direction from the price before
  abbrev pub directed_bar : Fields → Value → Fields
  directed_bar bar previous_price = assign "replace" (bool true) (
      assign "is_confirmed_minute_bar" (bool true) (
        assign "direction" (str (direction_of arithmetic (get_value bar "price") previous_price))
          bar))

  -- float(state["snapshot"].get("price") or bar["price"])
  abbrev pub price_before : Fields → Fields → Result Value
  price_before bar state = elim (snapshot_of state) [
    | ok snapshot ↦
        arithmetic.numbers.to_float (or_value (get_value snapshot "price") (get_value bar "price"))
    | raise e ↦ raise e
  ]

  abbrev pub enter_confirmed : (raw_event : Fields) → Text → Fields → Edit (Unit {0})
  enter_confirmed raw_event trade_date bar = do
    previous ← look (price_before bar)
    bars ← look (λ s.
        upsert_confirmed_minute_bar arithmetic py datetimes is_after
          (bars_in datetimes is_after py (get_value s "minute_bars")) (directed_bar bar previous)
          trade_date)
    _ ← write "minute_bars" (λ s. bars_value bars)
    _ ← update_snapshot_from_minute_bars (text_of py (get_value raw_event "ingest_ts"))
    _ ← write "last_tick" (λ s. dict (directed_bar bar previous))
    refresh raw_event trade_date true false

  abbrev pub enter_past_bar : (raw_event : Fields) → Text → Option Fields → Edit (Unit {0})
  enter_past_bar raw_event trade_date none = done tt
  enter_past_bar raw_event trade_date (some bar) = do
    late ← ask (
        is_current_or_future_minute_bar datetimes is_after now
          (text_of py (get_value bar "timestamp")))
    if late then done tt else enter_confirmed raw_event trade_date bar

  abbrev pub roll_over : (raw_event : Fields) → Text → Edit (Unit {0})
  roll_over raw_event trade_date = change (λ s.
      rollover_realtime_session py arithmetic.numbers s trade_date
        (text_of py (get_value raw_event "ingest_ts")))

  unfoldable pub apply_minute_bar_to_state : (raw_event : Fields) → Text → Edit (Unit {0})
  unfolding go_on find assign rollover_realtime_session prune_future_minute_bars
      minute_bar_from_payload is_current_or_future_minute_bar or_value upsert_confirmed_minute_bar
      update_snapshot_from_minute_bars realtime_freshness
  apply_minute_bar_to_state raw_event trade_date = do
    _ ← roll_over raw_event trade_date
    _ ← prune_state
    bar ← ask (minute_bar_from_payload arithmetic py raw_event)
    enter_past_bar raw_event trade_date bar

  -- The queue of the event comes back
  unfoldable pub apply_broker_queue_to_state :
      Option BodState → (raw_event : Fields) → Text → Edit Fields
  unfolding go_on find assign rollover_realtime_session normalize_raw_broker_queue
      merge_broker_queue realtime_freshness
  apply_broker_queue_to_state bod raw_event trade_date = do
    _ ← roll_over raw_event trade_date
    broker_queue ←
        ask
          (normalize_raw_broker_queue py arithmetic (fields_of (get_value raw_event "payload")) bod)
    current ← look (λ s. item s "broker_queue")
    merged ← ask (merge_broker_queue (fields_of current) broker_queue)
    _ ← write "broker_queue" (λ s. dict merged)
    _ ← refresh raw_event trade_date true false
    done broker_queue

  unfoldable pub apply_l2_order_book_to_state : (raw_event : Fields) → Text → Edit (Unit {0})
  unfolding go_on find assign rollover_realtime_session normalize_l2_order_book realtime_freshness
  apply_l2_order_book_to_state raw_event trade_date = do
    _ ← roll_over raw_event trade_date
    order_book ←
        ask (normalize_l2_order_book py arithmetic (fields_of (get_value raw_event "payload")))
    _ ← write "l2_order_book" (λ s. dict order_book)
    refresh raw_event trade_date true false
