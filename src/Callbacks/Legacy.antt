-- ===== src/Callbacks/Legacy.antt =====
-- backend/beast_market/runtime.py: legacy minute bars and ticks. The time stamp, which the caller takes out of the
-- dict again, comes beside it.
use lynx_monitor.Prelude.{
  String, Text, ◌||◌, List, [], ◌∷◌, if◌then◌else◌, codes, Result, ok, ◌>>=◌, fail, value_error,
}
use lynx_monitor.Value.{Value, str, Fields, field, end, find, get_value, assign}
use lynx_monitor.Contracts.{Python}
use lynx_monitor.Runtime.{text_or, zero_float}
use lynx_monitor.Bars.{Numbers, or_value, zero_int}
use lynx_monitor.Callbacks.{
  Stamps, first_present, is_null, normalize_minute_bar_timestamp, normalize_source_timestamp,
  normalize_legacy_side,
}

-- The keys under which the participant and the broker of a tick may stand, with those they get
abbrev pub identity_keys : List (String × String)
identity_keys =
    ("ParticipantID", "participant_id")
    ∷ ("participant_id", "participant_id")
    ∷ ("ParticipantName", "participant_name")
    ∷ ("participant_name", "participant_name")
    ∷ ("BrokerName", "broker_name")
    ∷ ("broker_name", "broker_name")
    ∷ []

unfoldable pub with_identity : Fields → List (String × String) → Fields → Fields
unfolding find assign
with_identity content [] result = result
with_identity content ((source_key, target_key) ∷ keys) result = with_identity content keys (
    if is_null (get_value content source_key)
    then result
    else assign target_key (get_value content source_key) result)

module _ (py : Python) (numbers : Numbers) (times : Value → Value → Value) (stamps : Stamps) where
  -- int(float(volume or 0))
  abbrev pub whole : Value → Result Value
  whole v = do x ← numbers.to_float (or_value v zero_int); numbers.to_int x

  unfoldable pub normalize_legacy_minute_bar : Fields → Result (Text × Fields)
  unfolding first_present or_value normalize_minute_bar_timestamp
  normalize_legacy_minute_bar content =
      let close =
        first_present content
          ("Close" ∷ "close" ∷ "Price" ∷ "price" ∷ "lastPrice" ∷ "last_price" ∷ []) in
      if is_null close then fail value_error (codes "missing minute close") else (do
        price ← numbers.to_float close
        timestamp ← normalize_minute_bar_timestamp numbers stamps py content
        start ← numbers.to_float (or_value (first_present content ("Open" ∷ "open" ∷ [])) price)
        high ← numbers.to_float (or_value (first_present content ("High" ∷ "high" ∷ [])) price)
        low ← numbers.to_float (or_value (first_present content ("Low" ∷ "low" ∷ [])) price)
        volume ← whole (first_present content ("Volume" ∷ "volume" ∷ "qty" ∷ "quantity" ∷ []))
        turnover ← numbers.to_float (
            or_value (first_present content ("Turnover" ∷ "turnover" ∷ "Amount" ∷ "amount" ∷ []))
              zero_float)
        ok (
          timestamp,
          field "price" price (
              field "open" start (
                field "high" high (
                  field "low" low (
                    field "close" price (field "volume" volume (field "turnover" turnover end)))))),
        ))

  unfoldable pub normalize_legacy_tick : Fields → Result (Text × Fields)
  unfolding first_present or_value normalize_source_timestamp normalize_legacy_side text_or
      with_identity
  normalize_legacy_tick content =
      let price = first_present content ("Price" ∷ "price" ∷ "last_price" ∷ "LastPrice" ∷ []) in
      let volume = first_present content ("Volume" ∷ "volume" ∷ "qty" ∷ "quantity" ∷ []) in
      let turnover = first_present content ("Turnover" ∷ "turnover" ∷ "Amount" ∷ "amount" ∷ []) in
      let side = first_present content ("Side" ∷ "side" ∷ "Dir" ∷ "dir" ∷ []) in
      let broker =
        first_present content
          ("BrokerID" ∷ "brokerID" ∷ "BrokerNo" ∷ "brokerNo" ∷ "broker_code" ∷ []) in
      if is_null price || is_null volume
      then fail value_error (codes "missing price or volume")
      else (do
        price_value ← numbers.to_float price
        volume_value ← numbers.to_int volume
        timestamp ← normalize_source_timestamp numbers stamps (
            first_present content (
              "_Collect_time" ∷ "_collect_time" ∷ "timestamp" ∷ "Timestamp" ∷ "Time" ∷ "time" ∷ []))
        turnover_value ←
            if is_null turnover
            then ok (times price_value volume_value)
            else numbers.to_float turnover
        ok (
          timestamp,
          with_identity content identity_keys (
              field "price" price_value (
                field "volume" volume_value (
                  field "turnover" turnover_value (
                    field "side" (str (normalize_legacy_side py side))
                      (field "broker_code" (str (text_or py broker [])) end))))),
        ))
