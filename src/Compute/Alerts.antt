-- ===== src/Compute/Alerts.antt =====
-- backend/beast_market/pipeline.py: the alert of a big trade, and what tells the sources of ticks apart. The dicts of a
-- `BodState` are association lists, its set of participants a list.
use lynx_monitor.Prelude.{
  Text, String, Bool, true, false, Option, none, some, List, [], ◌∷◌, ◌++◌, ◌&&◌, ◌||◌, not, any,
  if◌then◌else◌, codes, text_eq, text_equality, Result, ok, ◌>>=◌,
}
use lynx_monitor.Prelude.Dict.{Dict, get}
use lynx_monitor.Symbols.{strip, lower, is_empty}
use lynx_monitor.Value.{
  Value, bool, str, list, nil, Fields, field, end, find, item, fields_of, truthy, get_value,
}
use lynx_monitor.Contracts.{Python}
use lynx_monitor.Runtime.{text_of, text_or}
use lynx_monitor.Bars.{or_value}

-- The fields of `BodState` that events read
pub record BodState : Type 0 where
  pub volume_baseline : Value
  pub broker_mapping_by_code : Dict Text Fields
  pub highlighted_participants : List Text

abbrev pub is_one_of : Text → List Text → Bool
is_one_of t ts = any (text_eq t) ts

-- t.startswith(prefix)
unfoldable pub startswith : (t prefix : Text) → Bool
unfolding text_eq
startswith t [] = true
startswith [] (p ∷ prefix) = false
startswith (c ∷ t) (p ∷ prefix) =
    let rest = startswith t prefix in text_eq (c ∷ []) (p ∷ []) && rest

module _ (py : Python) where
  -- str(d.get(key) or "").strip().lower()
  abbrev pub plain : Value → Text
  plain v = lower (strip (text_or py v []))

  unfoldable pub is_minute_bar_source : Fields → Bool
  unfolding find text_or strip lower text_eq
  is_minute_bar_source raw_event =
      is_one_of (plain (get_value raw_event "period"))
        (codes "1m" ∷ codes "1min" ∷ codes "minute" ∷ codes "minute_bar" ∷ codes "minute_bars" ∷ [])

  unfoldable pub is_trade_tick_alert_source : Fields → Bool
  unfolding find text_or strip lower text_eq
  is_trade_tick_alert_source raw_event =
      is_one_of (plain (get_value raw_event "period"))
        (codes "hktransaction" ∷ codes "trade_tick" ∷ codes "tick" ∷ [])
      || is_one_of (plain (get_value raw_event "source"))
          (codes "mammoth" ∷ codes "mammoth-real-data-runner" ∷ [])

  unfoldable pub normalize_trade_side : Value → Text
  unfolding text_or lower text_eq
  normalize_trade_side value =
      let normalized = lower (text_or py value []) in
      if is_one_of normalized (codes "buy" ∷ codes "b" ∷ [])
      then codes "buy"
      else if is_one_of normalized (codes "sell" ∷ codes "s" ∷ [])
      then codes "sell"
      else codes "neutral"

  abbrev pub is_name : Text → Bool
  is_name candidate =
      not (is_empty candidate)
      && (not (text_eq candidate (codes "--")) && not (startswith candidate (codes "Broker ")))

  unfoldable pub normalized_participant_display : Value → Text → Fields → Text
  unfolding text_or strip text_eq startswith find
  normalized_participant_display participant_name broker_code payload =
      let candidate = strip (text_or py participant_name []) in
      if is_name candidate
      then candidate
      else if text_eq (text_or py (get_value payload "trade_type") []) (codes "101")
          || text_eq broker_code (codes "101")
      then codes "集合竞价"
      else codes "未披露"

  abbrev pub mapping_of : Option BodState → Text → Fields
  mapping_of none broker_code = end
  mapping_of (some bod) broker_code =
      if is_empty broker_code
      then end
      else elim (get bod.broker_mapping_by_code broker_code) [ none ↦ end | some mapping ↦ mapping ]

  abbrev pub is_highlighted_in : Option BodState → (participant_id participant_name : Text) → Bool
  is_highlighted_in none participant_id participant_name = false
  is_highlighted_in (some bod) participant_id participant_name =
      is_one_of participant_id bod.highlighted_participants
      || is_one_of participant_name bod.highlighted_participants

  unfoldable pub make_big_trade_alert : (raw_event tick : Fields) → Option BodState → Result Fields
  unfolding find truthy text_or text_eq or_value get normalized_participant_display
      normalize_trade_side
  make_big_trade_alert raw_event tick bod = do
    payload_value ← item raw_event "payload"
    let payload = fields_of payload_value
    let broker_code = text_or py (get_value payload "broker_code") []
    let mapping = mapping_of bod broker_code
    let participant_name =
        normalized_participant_display
          (or_value (get_value payload "participant_name") (
            or_value (get_value mapping "participant_name")
              (or_value (get_value mapping "broker_name") (get_value payload "broker_name"))))
          broker_code payload
    let participant_id =
        text_or py
          (or_value (get_value mapping "participant_id") (get_value payload "participant_id")) []
    event_id ← item raw_event "event_id"
    timestamp ← item tick "timestamp"
    price ← item tick "price"
    volume ← item tick "volume"
    turnover ← item tick "turnover"
    ok (
        field "id" (str (codes "alert-" ++ text_of py event_id)) (
          field "timestamp" timestamp (
            field "price" price (
              field "volume" volume (
                field "turnover" turnover (
                  field "side" (str (normalize_trade_side (get_value payload "side"))) (
                    field "participantName" (str participant_name) (
                      field "brokerName" (str participant_name) (
                        field "brokerCode" (str broker_code) (
                          field "isHighlighted"
                            (bool (
                              truthy (get_value payload "is_highlighted")
                              || is_highlighted_in bod participant_id participant_name))
                            end))))))))))

-- current.get(side, [])
abbrev pub side_of : Fields → String → Value
side_of current side = elim (find side current) [ none ↦ list nil | some v ↦ v ]

unfoldable pub merge_broker_queue : (current update : Fields) → Result Fields
unfolding find truthy
merge_broker_queue current update = do
  ask ← item update "ask"
  bid ← item update "bid"
  ok (
      field "ask" (if truthy ask then ask else side_of current "ask")
        (field "bid" (if truthy bid then bid else side_of current "bid") end))
