-- ===== src/Bars.antt =====
-- backend/beast_market/symbol_runtime.py: the minute bars and the alerts of a snapshot, and the trade date of a
-- payload. `float`, `int`, `+`, `max`, `min` and `==` of Python on the values of a dict are the parameter
-- `Numbers`.
pub mod Order
pub mod Converted
pub mod Placed
pub mod Entered
pub mod Alerts
use lynx_monitor.Prelude.{
  ℕ, String, Text, Bool, true, false, not, ◌&&◌, Option, none, some, List, [], ◌∷◌, ◌++◌, map, take,
  drop, length, ◌-◌, eqb, if◌then◌else◌, text_eq, ◌==◌, string_eq, codes, Result, ok, raise, ◌>>=◌,
  fail, other_error,
}
use lynx_monitor.Symbols.{is_empty, isdigit}
use lynx_monitor.Value.{
  Value, null, bool, int, float, str, list, dict, Items, nil, cons, Fields, field, end, pos, find,
  assign, get_value, truthy, fields_of,
}
use lynx_monitor.Contracts.{Python}
use lynx_monitor.Pool.{text_le}
use lynx_monitor.Runtime.{text_or, is_true}
use lynx_monitor.Session.{Datetimes, minute_bucket, is_regular_hk_trading_minute}

pub record Numbers : Type 0 where
  pub to_float : Value → Result Value
  pub to_int : Value → Result Value
  pub plus : Value → Value → Value
  pub maximum : Value → Value → Value
  pub minimum : Value → Value → Value
  pub equal : Value → Value → Bool

abbrev pub max_minute_bars : ℕ
max_minute_bars = 420

abbrev pub max_alerts : ℕ
max_alerts = 500

-- a or b
unfoldable pub or_value : Value → Value → Value
unfolding truthy
or_value a b = if truthy a then a else b

-- {**bar, **tick}
unfoldable pub merge : Fields → Fields → Fields
unfolding assign
merge bar end = bar
merge bar (field k v tick) = merge (assign k v bar) tick

abbrev pub dicts_of : Items → List Fields
dicts_of nil = []
dicts_of (cons (dict fs) vs) = fs ∷ dicts_of vs
dicts_of (cons _ vs) = dicts_of vs

abbrev pub values_of : Items → List Value
values_of nil = []
values_of (cons v vs) = v ∷ values_of vs

abbrev pub items : List Value → Items
items [] = nil
items (v ∷ vs) = cons v (items vs)

-- xs[-n:], of an n that is not 0
abbrev pub last_of {ℓ} : {A : Type ℓ} → ℕ → List A → List A
last_of n xs = drop (length xs - n) xs

abbrev pub zero_int : Value
zero_int = int (pos 0)

module _ {D : Type 0} (py : Python) (numbers : Numbers) (datetimes : Datetimes D) where
  -- minute_bucket(str(bar.get("timestamp") or ""))
  unfoldable pub bucket_of : Fields → Text
  unfolding minute_bucket text_or find
  bucket_of bar = minute_bucket datetimes (text_or py (get_value bar "timestamp") [])

  -- float(a or b)
  abbrev pub float_or : Value → Value → Result Value
  float_or a b = numbers.to_float (or_value a b)

  -- The writes of a bar's fields that all bars have.
  abbrev pub priced : Text → Value → Fields → Fields
  priced minute_ts price bar =
      assign "close" price (assign "price" price (assign "timestamp" (str minute_ts) bar))

  unfoldable pub with_range : (start high low volume turnover : Value) → Fields → Fields
  unfolding assign
  with_range start high low volume turnover bar =
      assign "turnover" turnover
        (assign "volume" volume (assign "low" low (assign "high" high (assign "open" start bar))))

  -- A bar of the tick's minute, with the tick
  unfoldable pub updated_bar :
      (minute_ts : Text) (price volume turnover : Value) (tick bar : Fields) → Result Fields
  unfolding or_value find merge with_range
  updated_bar minute_ts price volume turnover tick bar = do
    previous_price ← float_or (or_value (get_value bar "price") (get_value bar "close")) price
    previous_high ← float_or (get_value bar "high") previous_price
    previous_low ← float_or (get_value bar "low") previous_price
    let base = priced minute_ts price (merge bar tick)
    if is_true (get_value tick "replace")
        then (do
          start ← float_or (or_value (get_value tick "open") (get_value bar "open")) previous_price
          high ← float_or (get_value tick "high") price
          low ← float_or (get_value tick "low") price
          ok (with_range start high low volume turnover base))
        else (do
          start ← float_or (get_value bar "open") previous_price
          old_volume ← numbers.to_int (or_value (get_value bar "volume") zero_int)
          old_turnover ← float_or (get_value bar "turnover") zero_int
          ok (
              with_range start (numbers.maximum previous_high price)
                (numbers.minimum previous_low price) (numbers.plus old_volume volume)
                (numbers.plus old_turnover turnover) base))

  -- A bar of a minute that has none
  unfoldable pub first_bar :
      (minute_ts : Text) (price volume turnover : Value) (tick : Fields) → Result Fields
  unfolding or_value find assign
  first_bar minute_ts price volume turnover tick = do
    start ← float_or (get_value tick "open") price
    high ← float_or (get_value tick "high") price
    low ← float_or (get_value tick "low") price
    ok (
        assign "turnover" turnover (
          assign "volume" volume (
            assign "close" price (
              assign "low" low (
                assign "high" high (
                  assign "open" start
                    (assign "price" price (assign "timestamp" (str minute_ts) tick))))))))

  -- The loop over the bars with its `else`
  unfoldable pub place_bar :
      (minute_ts : Text) (price volume turnover : Value) (tick : Fields)
      → List Fields
      → Result (List Fields)
  unfolding bucket_of updated_bar first_bar text_eq
  place_bar minute_ts price volume turnover tick [] = do
    bar ← first_bar minute_ts price volume turnover tick
    ok (bar ∷ [])
  place_bar minute_ts price volume turnover tick (bar ∷ bars) =
      let rest = place_bar minute_ts price volume turnover tick bars in
      if text_eq (bucket_of bar) minute_ts
      then (do updated ← updated_bar minute_ts price volume turnover tick bar; ok (updated ∷ bars))
      else (do later ← rest; ok (bar ∷ later))

  -- bars.sort(key=…), which is stable
  unfoldable pub insert_bar : Fields → List Fields → List Fields
  unfolding bucket_of text_le
  insert_bar bar [] = bar ∷ []
  insert_bar bar (b ∷ bars) =
      let later = insert_bar bar bars in
      if text_le (bucket_of bar) (bucket_of b) then bar ∷ b ∷ bars else b ∷ later

  unfoldable pub sort_bars : List Fields → List Fields
  unfolding insert_bar
  sort_bars [] = []
  sort_bars (bar ∷ bars) = insert_bar bar (sort_bars bars)

  -- The bars of a value: dict(item) for the items that are dicts
  abbrev pub bars_of : Value → List Fields
  bars_of (list vs) = dicts_of vs
  bars_of _ = []

  -- The minutes that a tick is entered for
  unfoldable pub takes_tick : Text → Option Text → Bool
  unfolding minute_bucket is_regular_hk_trading_minute
  takes_tick timestamp trade_date =
      not (is_empty timestamp)
      && is_regular_hk_trading_minute datetimes (minute_bucket datetimes timestamp) trade_date

  unfoldable pub upsert_minute_bar : Value → Fields → Option Text → Result (List Fields)
  unfolding text_or takes_tick minute_bucket or_value place_bar sort_bars find
  upsert_minute_bar existing tick trade_date =
      let bars = bars_of existing in
      let timestamp = text_or py (get_value tick "timestamp") [] in
      if not (takes_tick timestamp trade_date) then ok (last_of max_minute_bars bars) else (do
        price ← float_or (or_value (get_value tick "price") (get_value tick "close")) zero_int
        volume ← numbers.to_int (or_value (get_value tick "volume") zero_int)
        turnover ← float_or (get_value tick "turnover") zero_int
        placed ← place_bar (minute_bucket datetimes timestamp) price volume turnover tick bars
        ok (last_of max_minute_bars (sort_bars placed)))

module _ (py : Python) (numbers : Numbers) where
  -- str(alert.get("id") or "")
  abbrev pub alert_id : Fields → Text
  alert_id alert = text_or py (get_value alert "id") []

  -- The alerts with another id; what is not a dict has no `get`.
  unfoldable pub other_ids : Text → List Value → Result (List Value)
  unfolding text_or find text_eq
  other_ids id [] = ok []
  other_ids id (dict alert ∷ alerts) = do
    rest ← other_ids id alerts
    ok (if text_eq (alert_id alert) id then rest else dict alert ∷ rest)
  other_ids id (_ ∷ alerts) = fail other_error (codes "object has no attribute 'get'")

  abbrev pub others : Value → List Value → List Value
  others alert [] = []
  others alert (v ∷ vs) =
      let rest = others alert vs in if numbers.equal v alert then rest else v ∷ rest

  unfoldable pub prepend_unique_alert : Fields → List Value → Result (List Value)
  unfolding text_or find other_ids
  prepend_unique_alert alert existing_alerts = do
    deduped ←
        if is_empty (alert_id alert)
        then ok (others (dict alert) existing_alerts)
        else other_ids (alert_id alert) existing_alerts
    ok (take max_alerts (dict alert ∷ deduped))

-- The first of the keys whose text has eight digits, and else no text
unfoldable pub date_under : List String → Fields → Text
unfolding find isdigit
date_under [] value = []
date_under (k ∷ ks) value =
    let later = date_under ks value in
    elim (get_value value k) [
      | str s ↦ if eqb (length s) 8 && isdigit s then s else later
      | null ↦ later
      | bool _ ↦ later
      | int _ ↦ later
      | float _ ↦ later
      | list _ ↦ later
      | dict _ ↦ later
    ]

unfoldable pub extract_freshness_trade_date : Value → Text
unfolding date_under
extract_freshness_trade_date value =
    date_under
      ("effective_trade_date" ∷ "effectiveTradeDate" ∷ "requested_trade_date" ∷ "requestedTradeDate"
        ∷ [])
      (fields_of value)

unfoldable pub extract_snapshot_trade_date : Value → Text
unfolding date_under
extract_snapshot_trade_date value =
    date_under ("tradeDate" ∷ "trade_date" ∷ "requestedTradeDate" ∷ "requested_trade_date" ∷ [])
      (fields_of value)

abbrev pub first_text : List Text → Text → Text
first_text [] fallback = fallback
first_text (t ∷ ts) fallback = if is_empty t then first_text ts fallback else t

-- `terminal_payload_trade_date`; a runtime without a snapshot has no fields
unfoldable pub terminal_payload_trade_date : (payload snapshot_payload : Fields) → Text → Text
unfolding extract_freshness_trade_date extract_snapshot_trade_date find
terminal_payload_trade_date payload snapshot_payload = first_text (
    extract_freshness_trade_date (get_value payload "freshness")
    ∷ extract_snapshot_trade_date (get_value payload "snapshot")
    ∷ extract_freshness_trade_date (get_value snapshot_payload "freshness")
    ∷ extract_snapshot_trade_date (get_value snapshot_payload "snapshot")
    ∷ [])
