-- ===== src/Callbacks/Normalize.antt =====
-- backend/beast_market/runtime.py: `normalize_xtquant_tick` and `normalize_xtquant_callback`.
use lynx_monitor.Prelude.{
  Text, ◌||◌, Option, none, some, List, [], ◌∷◌, ◌++◌, any, if◌then◌else◌, text_eq, codes, Result,
  ok, ◌>>=◌, fail, value_error,
}
use lynx_monitor.Symbols.{normalize_subscription_symbol, lower, complete, is_empty}
use lynx_monitor.Value.{Value, null, str, list, dict, Fields, field, end, find, get_value}
use lynx_monitor.Contracts.{Python}
use lynx_monitor.Runtime.{text_or, as_dict}
use lynx_monitor.Bars.{Numbers, or_value}
use lynx_monitor.Callbacks.{
  Stamps, is_null, first_present, infer_period, infer_symbol_from_data, normalize_source_timestamp,
}
use lynx_monitor.Callbacks.Legacy.{normalize_legacy_minute_bar, normalize_legacy_tick}
use lynx_monitor.Callbacks.Queues.{normalize_legacy_broker_queue, normalize_legacy_l2_order_book}

abbrev pub minute_periods : List Text
minute_periods =
    codes "1m" ∷ codes "1min" ∷ codes "minute" ∷ codes "minute_bar" ∷ codes "minute_bars" ∷ []

abbrev pub tick_periods : List Text
tick_periods = codes "hktransaction" ∷ codes "trade_tick" ∷ codes "tick" ∷ []

abbrev pub broker_periods : List Text
broker_periods =
    codes "hkbrokerqueueex" ∷ codes "broker_queue" ∷ codes "brokerqueue" ∷ codes "brokerqueue2" ∷ []

abbrev pub book_periods : List Text
book_periods = codes "l2thousand" ∷ codes "l2thousand_queue" ∷ codes "l2_order_book" ∷ []

abbrev pub callback_event : (kind symbol period source_ts : Text) → Fields → Fields
callback_event kind symbol period source_ts payload = field "kind" (str kind) (
    field "symbol" (str symbol) (
      field "period" (str period)
        (field "source_ts" (str source_ts) (field "payload" (dict payload) end))))

-- content.get(symbol)
unfoldable pub get_text : Text → Fields → Value
unfolding text_eq
get_text key end = null
get_text key (field k v fs) = if text_eq (codes k) key then v else get_text key fs

module _ (py : Python) (numbers : Numbers) (times : Value → Value → Value) (stamps : Stamps) where
  unfoldable pub normalize_xtquant_tick : Fields → Result (Text × Fields)
  unfolding find or_value text_or complete normalize_source_timestamp
  normalize_xtquant_tick payload =
      let symbol =
        text_or py (or_value (get_value payload "symbol") (get_value payload "code")) [] in
      let price = or_value (get_value payload "price") (get_value payload "last_price") in
      let volume =
        or_value (get_value payload "volume")
          (or_value (get_value payload "qty") (get_value payload "quantity")) in
      if is_empty symbol
      then fail value_error (codes "missing symbol")
      else if is_null price || is_null volume
      then fail value_error (codes "missing price or volume")
      else (do
        timestamp ← normalize_source_timestamp numbers stamps (
            or_value (get_value payload "timestamp") (or_value (get_value payload "time") (str [])))
        price_value ← numbers.to_float price
        volume_value ← numbers.to_int volume
        turnover ←
            numbers.to_float
              (or_value (get_value payload "turnover") (times price_value volume_value))
        ok (
          complete symbol,
          field "timestamp" (str timestamp) (
              field "price" price_value (
                field "volume" volume_value (
                  field "turnover" turnover (
                    field "side" (str (text_or py (get_value payload "side") (codes "neutral"))) (
                      field "broker_code" (str (text_or py (get_value payload "broker_code") []))
                        end))))),
        ))

  abbrev pub collected_at : Fields → Result Text
  collected_at content =
      normalize_source_timestamp numbers stamps
        (first_present content ("_Collect_time" ∷ "_collect_time" ∷ "Time" ∷ "time" ∷ []))

  -- The event of a callback, of its symbol and period
  unfoldable pub normalize_content : (symbol period : Text) → Fields → Result Fields
  unfolding text_eq first_present normalize_source_timestamp normalize_legacy_minute_bar
      normalize_legacy_tick or_value find normalize_legacy_broker_queue
      normalize_legacy_l2_order_book get_text
  normalize_content symbol period content =
      if any (text_eq period) minute_periods
      then (do
        bar ← normalize_legacy_minute_bar py numbers times stamps content
        ok (callback_event (codes "tick") symbol (codes "1m") bar.0 bar.1))
      else if any (text_eq period) tick_periods
      then (do
        tick ← normalize_legacy_tick py numbers times stamps content
        ok (callback_event (codes "tick") symbol (codes "hktransaction") tick.0 tick.1))
      else if any (text_eq period) broker_periods
      then (do
        source_ts ← collected_at content
        entries ← normalize_legacy_broker_queue py numbers times stamps content
        ok (
            callback_event (codes "broker_queue") symbol
              (if text_eq period (codes "brokerqueue2") then period else codes "hkbrokerqueueex")
              source_ts
              (field "side" (or_value (get_value content "Side") (get_value content "side"))
                (field "entries" (list entries) end))))
      else if any (text_eq period) book_periods
      then (do
        source_ts ← collected_at content
        book ←
            normalize_legacy_l2_order_book py numbers times stamps (get_text symbol content) content
        ok (callback_event (codes "l2_order_book") symbol period source_ts book))
      else fail value_error (codes "unsupported callback period: " ++ period)

  -- payload.get("data", payload)
  abbrev pub content_of : Fields → Option Fields
  content_of payload = elim (find "data" payload) [ none ↦ some payload | some v ↦ as_dict v ]

  abbrev pub or_inferred : Text → Fields → Text
  or_inferred period content = if is_empty period then infer_period content else period

  abbrev pub normalize_found : (symbol period : Text) → Option Fields → Result Fields
  normalize_found symbol period none = fail value_error (codes "callback data must be an object")
  normalize_found symbol period (some content) =
      normalize_content symbol (or_inferred period content) content

  unfoldable pub callback_period : Fields → Text
  unfolding find or_value text_or lower
  callback_period payload =
      lower (text_or py (or_value (get_value payload "period") (get_value payload "Period")) [])

  unfoldable pub callback_raw_symbol : Fields → Text
  unfolding find or_value text_or infer_symbol_from_data
  callback_raw_symbol payload =
      text_or py
        (or_value (get_value payload "symbol") (
          or_value (get_value payload "code")
            (str (infer_symbol_from_data (get_value payload "data")))))
        []

  unfoldable pub normalize_callback_fields : Fields → Result Fields
  unfolding callback_period callback_raw_symbol find normalize_subscription_symbol infer_period
      normalize_content
  normalize_callback_fields payload = do
    symbol ← normalize_subscription_symbol (callback_raw_symbol payload)
    normalize_found symbol (callback_period payload) (content_of payload)

  unfoldable pub normalize_xtquant_callback : Value → Result Fields
  unfolding normalize_callback_fields
  normalize_xtquant_callback payload = elim (as_dict payload) [
    | none ↦ fail value_error (codes "callback payload must be an object")
    | some fs ↦ normalize_callback_fields fs
  ]
