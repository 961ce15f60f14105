-- ===== src/Compute.antt =====
-- backend/beast_market/pipeline.py: what the compute stage makes of the state of a symbol when a trading day begins, and
-- of its freshness at an event. A state is a dict, and a call that changes it in place returns it changed.
pub mod Rollover
pub mod Freshness
pub mod Reasons
pub mod Alerts
pub mod Minutes
pub mod Edit
pub mod Confirmed
pub mod Snapshots
pub mod Books
pub mod Policy
pub mod Changes
pub mod Stage
use lynx_monitor.Prelude.{
  ℕ, Text, String, Bool, true, false, Option, none, some, List, [], ◌∷◌, ◌&&◌, ◌||◌, not, any,
  if◌then◌else◌, ◌==◌, string_eq, codes, text_eq, Result, ok, raise, ◌>>=◌,
}
use lynx_monitor.Value.{
  Value, null, bool, int, float, finite, pos, str, list, dict, Items, nil, cons, Fields, field, end,
  find, item, assign, fields_of, items_of, truthy, get_value,
}
use lynx_monitor.Contracts.{Python}
use lynx_monitor.Runtime.{text_of, text_or, texts_of}
use lynx_monitor.Bars.{Numbers, or_value, merge, zero_int}

abbrev pub zero_float : Value
zero_float = float (finite (pos 0) 0)

-- state.get(key), if it is a dict, else {}
abbrev pub dict_at : Fields → String → Fields
dict_at state k = fields_of (get_value state k)

-- What a new day's snapshot has after its date
abbrev pub day_fields : (trade_date updated_at : Text) → Value → Fields
day_fields trade_date updated_at price = field "requestedTradeDate" (str trade_date) (
    field "isHistoricalSession" (bool false) (
      field "price" price (
        field "previousClose" price (
          field "open" price (
            field "high" price (
              field "low" price (
                field "volume" zero_int (
                  field "turnover" zero_float (
                    field "change" zero_float (
                      field "changePercent" zero_float
                        (field "updatedAt" (str updated_at) end)))))))))))

unfoldable pub rolled_snapshot : (trade_date updated_at : Text) → Value → Fields → Fields
unfolding merge
rolled_snapshot trade_date updated_at price snapshot =
    merge snapshot (field "tradeDate" (str trade_date) (day_fields trade_date updated_at price))

unfoldable pub rolled_freshness : (trade_date updated_at : Text) → Fields → Fields
unfolding merge find
rolled_freshness trade_date updated_at freshness = merge freshness (
    field "updated_at" (str updated_at) (
      field "requested_trade_date" (str trade_date) (
        field "effective_trade_date" (str trade_date) (
          field "source_dates"
            (dict (
              merge (dict_at freshness "source_dates") (
                field "minute_bars" (str []) (
                  field "trade_ticks" (str []) (
                    field "broker_queue" (str [])
                      (field "realtime_session" (str trade_date) end))))))
            end))))

abbrev pub rolled : (trade_date updated_at : Text) → Fields → Value → Fields
rolled trade_date updated_at state price =
    assign "freshness" (dict (rolled_freshness trade_date updated_at (dict_at state "freshness"))) (
      assign "snapshot"
        (dict (rolled_snapshot trade_date updated_at price (dict_at state "snapshot")))
        (assign "alerts" (list nil) (assign "minute_bars" (list nil) state)))

module _ (py : Python) (numbers : Numbers) where
  unfoldable pub snapshot_trade_date : Fields → Text
  unfolding find or_value text_or
  snapshot_trade_date state =
      let snapshot = dict_at state "snapshot" in
      text_or py (or_value (get_value snapshot "tradeDate") (get_value snapshot "trade_date")) []

  unfoldable pub reference_price : Fields → Result Value
  unfolding find or_value
  reference_price snapshot = numbers.to_float (
      or_value (get_value snapshot "nextSessionPreviousClose") (
        or_value (get_value snapshot "price")
          (or_value (get_value snapshot "previousClose") zero_int)))

  unfoldable pub rollover_realtime_session : Fields → (trade_date updated_at : Text) → Result Fields
  unfolding snapshot_trade_date reference_price rolled_snapshot rolled_freshness assign find text_eq
  rollover_realtime_session state trade_date updated_at =
      if text_eq (snapshot_trade_date state) trade_date then ok state else (do
        price ← reference_price (dict_at state "snapshot")
        ok (rolled trade_date updated_at state price))
