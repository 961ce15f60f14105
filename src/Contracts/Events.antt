-- ===== src/Contracts/Events.antt =====
-- contracts.py: the three kinds of wire records, their validation and their construction.
use lynx_monitor.Prelude.{
  ℕ, String, Text, Bool, false, not, ◌&&◌, ◌||◌, Option, none, some, List, [], ◌∷◌, ◌++◌, any,
  if◌then◌else◌, text_eq, Result, ok, ◌>>=◌, codes,
}
use lynx_monitor.Symbols.{is_empty}
use lynx_monitor.Value
use lynx_monitor.Value.{
  ℤ, pos, Value, null, int, str, list, dict, Fields, end, field, find, has, item, is_dict, is_list,
  fields_of, items_of,
}
use lynx_monitor.Contracts.{
  Python, require, member, is_finite_number, is_non_positive, is_negative, is_positive_int,
  is_non_empty_string, all_dicts, require_payload_keys, require_object, require_snapshot_payload,
  validate_event_envelope, raw_event_kinds, processed_event_result_types, terminal_message_types,
}

-- Whether a value is the given text.
abbrev pub is_text : Text → Value → Bool
is_text t (str s) = text_eq s t
is_text t _ = false

-- A field that must be a finite number, and must not fail a test of its sign.
unfoldable pub require_number : Fields → String → (Value → Bool) → Text → Result (Unit {0})
unfolding find is_finite_number
require_number payload key bad message = do
  value ← item payload key
  require (is_finite_number value && not (bad value)) message

unfoldable pub validate_tick : Fields → Result (Unit {0})
unfolding require_payload_keys require_number is_non_positive is_negative
validate_tick payload = do
  _ ← require_payload_keys payload ("price" ∷ "volume" ∷ "turnover" ∷ [])
  _ ←
      require_number payload "price" is_non_positive
        (codes "tick payload price must be a positive number")
  _ ←
      require_number payload "volume" is_negative
        (codes "tick payload volume must be a non-negative number")
  require_number payload "turnover" is_negative
      (codes "tick payload turnover must be a non-negative number")

unfoldable pub validate_broker_queue : Fields → Result (Unit {0})
unfolding require_payload_keys find
validate_broker_queue payload = do
  _ ← require_payload_keys payload ("entries" ∷ [])
  entries ← item payload "entries"
  _ ← require (is_list entries) (codes "broker_queue payload entries must be an array")
  require (all_dicts (items_of entries)) (codes "broker_queue payload entries must contain objects")

unfoldable pub validate_l2_order_book : Fields → Result (Unit {0})
unfolding require_payload_keys find
validate_l2_order_book payload = do
  _ ← require_payload_keys payload ("ask" ∷ "bid" ∷ [])
  ask ← item payload "ask"
  bid ← item payload "bid"
  _ ←
      require (is_list ask && is_list bid)
        (codes "l2_order_book payload ask and bid must be arrays")
  require (all_dicts (items_of ask) && all_dicts (items_of bid))
      (codes "l2_order_book payload ask and bid entries must contain objects")

unfoldable pub validate_holding_response : Fields → Result (Unit {0})
unfolding require_payload_keys find is_non_empty_string is_positive_int
validate_holding_response payload = do
  _ ← require_payload_keys payload ("participant_name" ∷ "days" ∷ "history" ∷ [])
  name ← item payload "participant_name"
  _ ←
      require (is_non_empty_string name)
        (codes "holding_name_click_response participant_name must be a non-empty string")
  days ← item payload "days"
  _ ←
      require (is_positive_int days)
        (codes "holding_name_click_response days must be a positive integer")
  history ← item payload "history"
  require (is_list history) (codes "holding_name_click_response history must be an array")

-- The branches on the kind, on the result type and on the message type.
unfoldable pub validate_raw_payload : Value → Fields → Result (Unit {0})
unfolding validate_tick validate_broker_queue validate_l2_order_book
validate_raw_payload kind payload =
    if is_text (codes "tick") kind
    then validate_tick payload
    else if is_text (codes "broker_queue") kind
    then validate_broker_queue payload
    else if is_text (codes "l2_order_book") kind
    then validate_l2_order_book payload
    else ok tt

unfoldable pub validate_processed_payload : Value → Fields → Result (Unit {0})
unfolding require_snapshot_payload require_object
validate_processed_payload result_type payload =
    if is_text (codes "snapshot") result_type || is_text (codes "l2_order_book") result_type
    then require_snapshot_payload payload
    else if is_text (codes "big_trade_alert") result_type
    then require_object payload "alert" (codes "big_trade_alert payload alert must be an object")
    else if is_text (codes "broker_queue") result_type
    then require_object payload "broker_queue"
        (codes "broker_queue payload broker_queue must be an object")
    else ok tt

unfoldable pub validate_terminal_payload : Value → Fields → Result (Unit {0})
unfolding require_snapshot_payload require_object validate_holding_response
validate_terminal_payload message_type payload =
    if is_text (codes "snapshot") message_type
    then require_snapshot_payload payload
    else if is_text (codes "tick_realtime") message_type
    then require_object payload "tick" (codes "tick_realtime payload tick must be an object")
    else if is_text (codes "alert_realtime") message_type
    then require_object payload "alert" (codes "alert_realtime payload alert must be an object")
    else if is_text (codes "queue_realtime") message_type
    then require_object payload "broker_queue"
        (codes "queue_realtime payload broker_queue must be an object")
    else if is_text (codes "holding_name_click_response") message_type
    then validate_holding_response payload
    else ok tt

module _ (py : Python) where
  -- What the three validators share: the envelope, then membership of the tag, then the payload.
  unfoldable pub validate_tagged :
      String → List Text → Text → (Value → Fields → Result (Unit {0})) → Fields → Result (Unit {0})
  unfolding validate_event_envelope member find
  validate_tagged tag allowed unsupported validate_payload message = do
    _ ← validate_event_envelope py message (tag ∷ [])
    kind ← item message tag
    known ← member kind allowed
    _ ← require known (unsupported ++ py.format kind)
    payload ← item message "payload"
    validate_payload kind (fields_of payload)

  unfoldable pub validate_raw_market_event : Fields → Result (Unit {0})
  unfolding validate_tagged validate_raw_payload
  validate_raw_market_event =
      validate_tagged "kind" raw_event_kinds (codes "unsupported RawMarketEvent kind: ")
        validate_raw_payload

  unfoldable pub validate_processed_market_event : Fields → Result (Unit {0})
  unfolding validate_tagged validate_processed_payload
  validate_processed_market_event =
      validate_tagged "result_type" processed_event_result_types
        (codes "unsupported ProcessedMarketEvent result_type: ") validate_processed_payload

  unfoldable pub validate_terminal_message : Fields → Result (Unit {0})
  unfolding validate_tagged validate_terminal_payload
  validate_terminal_message =
      validate_tagged "type" terminal_message_types (codes "unsupported TerminalMessage type: ")
        validate_terminal_payload

  abbrev pub or_now : Option Text → Text → Text
  or_now none now = now
  or_now (some t) now = if is_empty t then now else t

  -- The dict that a `make_*` function builds, before it is validated. `fresh` is the generated id.
  abbrev pub envelope : String → Value → Text → Text → Text → Text → Text → Fields → ℕ → Fields
  envelope tag kind event_id symbol source source_ts ingest_ts payload seq =
      field "schema_version" (int (pos 1)) (
        field tag kind (
          field "event_id" (str event_id) (
            field "symbol" (str symbol) (
              field "source" (str source) (
                field "source_ts" (str source_ts) (
                  field "ingest_ts" (str ingest_ts)
                    (field "seq" (int (pos seq)) (field "payload" (dict payload) end))))))))

  abbrev pub with_period : Option Text → Fields → Fields
  with_period none event = event
  with_period (some p) event = if is_empty p then event else Value.assign "period" (str p) event

  unfoldable pub make_raw_market_event :
      (fresh now : Text) (kind symbol source : Text) (payload : Fields) (seq : ℕ)
      (source_ts ingest_ts period event_id : Option Text)
      → Result Fields
  unfolding validate_raw_market_event Value.assign
  make_raw_market_event fresh now kind symbol source payload seq source_ts ingest_ts period
        event_id =
      do
        let event = with_period period (
            envelope "kind" (str kind) (or_now event_id fresh) symbol source (or_now source_ts now)
              (or_now ingest_ts now) payload seq)
        _ ← validate_raw_market_event event
        ok event

  unfoldable pub make_processed_market_event :
      (fresh now : Text) (result_type symbol source : Text) (payload : Fields) (seq : ℕ)
      (source_ts ingest_ts period event_id : Option Text)
      → Result Fields
  unfolding validate_processed_market_event Value.assign
  make_processed_market_event fresh now result_type symbol source payload seq source_ts ingest_ts
        period event_id =
      do
        let event = with_period period (
            envelope "result_type" (str result_type) (or_now event_id fresh) symbol source
              (or_now source_ts now) (or_now ingest_ts now) payload seq)
        _ ← validate_processed_market_event event
        ok event

  unfoldable pub make_terminal_message :
      (fresh now : Text) (message_type symbol source : Text) (payload : Fields) (seq : ℕ)
      (source_ts ingest_ts event_id : Option Text)
      → Result Fields
  unfolding validate_terminal_message
  make_terminal_message fresh now message_type symbol source payload seq source_ts ingest_ts
        event_id =
      do
        _ ←
            require (any (text_eq message_type) terminal_message_types)
              (codes "unsupported TerminalMessage type: " ++ message_type)
        let message =
            envelope "type" (str message_type) (or_now event_id fresh) symbol source
              (or_now source_ts now) (or_now ingest_ts now) payload seq
        _ ← validate_terminal_message message
        ok message
