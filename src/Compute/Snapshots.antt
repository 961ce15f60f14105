-- ===== src/Compute/Snapshots.antt =====
-- backend/beast_market/pipeline.py: the snapshot that is made of the minute bars, and the snapshot after a tick.
use lynx_monitor.Prelude.{
  Text, String, Bool, true, false, List, [], ◌∷◌, if◌then◌else◌, codes, Result, ok, ◌>>=◌,
  string_eq,
}
use lynx_monitor.Value.{Value, bool, str, Fields, field, end, find, item, get_value, fields_of}
use lynx_monitor.Contracts.{Python}
use lynx_monitor.Runtime.{text_of}
use lynx_monitor.Bars.{or_value, merge, zero_int}
use lynx_monitor.Compute.{zero_float}
use lynx_monitor.Compute.Minutes.{Tick}
use lynx_monitor.Compute.Confirmed.{Arithmetic, first_of}

module _ (arithmetic : Arithmetic) where
  -- float(bar.get(k) or … or other), of each bar
  abbrev pub floats_of : List String → Value → List Fields → Result (List Value)
  floats_of keys other [] = ok []
  floats_of keys other (bar ∷ bars) = do
    v ← arithmetic.numbers.to_float (first_of bar keys other)
    vs ← floats_of keys other bars
    ok (v ∷ vs)

  abbrev pub volumes_of : List Fields → Result (List Value)
  volumes_of [] = ok []
  volumes_of (bar ∷ bars) = do
    v ← arithmetic.numbers.to_int (or_value (get_value bar "volume") zero_int)
    vs ← volumes_of bars
    ok (v ∷ vs)

  abbrev pub folded : (Value → Value → Value) → Value → List Value → Value
  folded f v [] = v
  folded f v (w ∷ ws) = folded f (f v w) ws

  -- max and min of values that are not none
  abbrev pub greatest : (Value → Value → Value) → Value → List Value → Value
  greatest f other [] = other
  greatest f other (v ∷ vs) = folded f v vs

  abbrev pub percent_of : (change previous_close : Value) → Value
  percent_of change previous_close =
      if arithmetic.numbers.equal previous_close zero_int
      then zero_float
      else arithmetic.percent change previous_close

  abbrev pub last_bar : Fields → List Fields → Fields
  last_bar bar [] = bar
  last_bar bar (b ∷ bars) = last_bar b bars

  -- The snapshot of the bars, of which `bar` is the first
  unfoldable pub snapshot_of_bars : Text → Fields → List Fields → Fields → Result Fields
  unfolding find or_value merge
  snapshot_of_bars updated_at bar bars snapshot = do
    previous_close ←
        arithmetic.numbers.to_float (or_value (get_value snapshot "previousClose") zero_int)
    price ←
        arithmetic.numbers.to_float
          (first_of (last_bar bar bars) ("price" ∷ "close" ∷ []) previous_close)
    highs ← floats_of ("high" ∷ "price" ∷ []) price (bar ∷ bars)
    lows ← floats_of ("low" ∷ "price" ∷ []) price (bar ∷ bars)
    open_price ← arithmetic.numbers.to_float (first_of bar ("open" ∷ "price" ∷ []) price)
    volumes ← volumes_of (bar ∷ bars)
    turnovers ← floats_of ("turnover" ∷ []) zero_float (bar ∷ bars)
    let change = arithmetic.minus price previous_close
    ok (
        merge snapshot (
          field "price" price (
            field "open" open_price (
              field "high" (greatest arithmetic.numbers.maximum price highs) (
                field "low" (greatest arithmetic.numbers.minimum price lows) (
                  field "volume" (folded arithmetic.numbers.plus zero_int volumes) (
                    field "turnover" (folded arithmetic.numbers.plus zero_int turnovers) (
                      field "change" change (
                        field "updatedAt" (str updated_at)
                          (field "changePercent" (percent_of change previous_close) end))))))))))

  -- int(snapshot["volume"]) + tick["volume"], but a full tick has the whole volume
  abbrev pub grown : Bool → (Value → Result Value) → String → Value → Fields → Result Value
  grown true convert key v snapshot = ok v
  grown false convert key v snapshot = do
    before ← item snapshot key
    old ← convert before
    ok (arithmetic.numbers.plus old v)

  unfoldable pub snapshot_after_tick :
      (is_full_tick_seed : Bool) → Text → Tick → Fields → Result Fields
  unfolding find or_value merge
  snapshot_after_tick is_full_tick_seed ingest_ts tick snapshot = do
    high ← arithmetic.numbers.to_float (or_value (get_value snapshot "high") tick.price)
    low ← arithmetic.numbers.to_float (or_value (get_value snapshot "low") tick.price)
    volume ← grown is_full_tick_seed arithmetic.numbers.to_int "volume" tick.volume snapshot
    turnover ← grown is_full_tick_seed arithmetic.numbers.to_float "turnover" tick.turnover snapshot
    before ← item snapshot "previousClose"
    previous_close ← arithmetic.numbers.to_float before
    let change = arithmetic.minus tick.price previous_close
    ok (
        merge snapshot (
          field "price" tick.price (
            field "high" (arithmetic.numbers.maximum high tick.price) (
              field "low" (arithmetic.numbers.minimum low tick.price) (
                field "volume" volume (
                  field "turnover" turnover (
                    field "change" change (
                      field "updatedAt" (str ingest_ts)
                        (field "changePercent" (percent_of change previous_close) end)))))))))

  -- What a tick of another day makes of the snapshot first
  unfoldable pub snapshot_of_day : Text → Tick → Value → Fields → Fields
  unfolding merge
  snapshot_of_day trade_date tick previous_close snapshot = merge snapshot (
      field "tradeDate" (str trade_date) (
        field "requestedTradeDate" (str trade_date) (
          field "isHistoricalSession" (bool false) (
            field "previousClose" previous_close (
              field "open" tick.price (
                field "high" tick.price (
                  field "low" tick.price
                    (field "volume" zero_int (field "turnover" zero_float end)))))))))

  -- float(state["snapshot"]["price"])
  abbrev pub previous_price : Fields → Result Value
  previous_price state = do
    snapshot ← item state "snapshot"
    price ← item (fields_of snapshot) "price"
    arithmetic.numbers.to_float price

  abbrev pub next_snapshot : Bool → Text → Tick → Fields → Result Fields
  next_snapshot is_full_tick_seed ingest_ts tick state = do
    snapshot ← item state "snapshot"
    snapshot_after_tick is_full_tick_seed ingest_ts tick (fields_of snapshot)

  unfoldable pub tick_of : Python → Fields → Result Tick
  unfolding find
  tick_of py raw_event = do
    let payload = fields_of (get_value raw_event "payload")
    price_value ← item payload "price"
    price ← arithmetic.numbers.to_float price_value
    volume_value ← item payload "volume"
    volume ← arithmetic.numbers.to_int volume_value
    turnover_value ← item payload "turnover"
    turnover ← arithmetic.numbers.to_float turnover_value
    ok (record {
      timestamp = text_of py (get_value raw_event "source_ts");
      price = price;
      volume = volume;
      turnover = turnover;
      direction = codes "flat";
    })
