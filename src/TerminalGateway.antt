-- ===== src/TerminalGateway.antt =====
-- backend/beast_market/pipeline.py: `GatewayV2`, which makes terminal messages of the processed events that it
-- consumes. The bus is an `EventConsumer` with its lag; `fresh_id` is the id that is made for a message and `now` the
-- time of a call. A bus without `poll`, which the gateway would read from the beginning, and a `poll`, `commit` or `lag`
-- that raises are left out.
pub mod Commit
pub mod Offsets
pub mod Replies
use lynx_monitor.Prelude.{
  ℕ, zero, suc, ◌+◌, max, String, Text, Bool, true, false, Option, none, some, List, [], ◌∷◌, ◌++◌,
  length, if◌then◌else◌, codes, text_eq, text_equality, Result, ok, raise, ◌>>=◌, fail, key_error,
  other_error, Error,
}
use lynx_monitor.Prelude.Dict.{Dict, get, put}
use lynx_monitor.Value.{
  Value, int, pos, str, list, dict, Items, nil, cons, Fields, field, end, find, item, get_value,
  fields_of, truthy,
}
use lynx_monitor.Contracts.{Python, processed_topic}
use lynx_monitor.Contracts.Events.{
  make_terminal_message, validate_terminal_message, validate_processed_market_event,
}
use lynx_monitor.Bus.{validate_event_bus_record_inputs}
use lynx_monitor.Consumer.{PolledRecord, EventConsumer}
use lynx_monitor.Runtime.{text_of}
use lynx_monitor.Runtime.RawEvents.{number_at}

-- The numbers of the messages of a symbol, and `health.latest_event_at_by_symbol`
pub record Stamped : Type 0 where
  pub seq_by_symbol : Dict Text ℕ
  pub latest_event_at_by_symbol : Dict Text Value

pub record GatewayV2 (C : Type 0) : Type 0 where
  pub bus : C
  pub stamped : Stamped
  pub processed_records_consumed : ℕ
  pub shadow_processed_records_drained : ℕ
  pub direct_runtime_messages_emitted : ℕ
  pub terminal_messages_emitted : ℕ
  pub last_terminal_messages : List Fields
  pub kafka_lag : ℕ

-- max(offsets), or none
abbrev pub later_offset : Option ℕ → Option ℕ → Option ℕ
later_offset none later = later
later_offset (some n) none = some n
later_offset (some n) (some m) = some (max n m)

abbrev pub last_offset : List PolledRecord → Option ℕ
last_offset [] = none
last_offset (r ∷ rs) = later_offset (r.offset) (last_offset rs)

unfoldable pub next_committed_offset : List PolledRecord → ℕ → ℕ
next_committed_offset records current_offset = elim (last_offset records) [
  | some n ↦ n + 1
  | none ↦ current_offset + length records
]

-- minute_bars[-1]
abbrev pub last_of_items : Items → Result Value
last_of_items nil = fail other_error (codes "list index out of range")
last_of_items (cons v nil) = ok v
last_of_items (cons v (cons w vs)) = last_of_items (cons w vs)

abbrev pub items_in : Value → Items
items_in (list vs) = vs
items_in _ = nil

-- payload.get("last_tick") or payload["minute_bars"][-1]; what was validated has a list of bars
abbrev pub latest_tick : Fields → Result Value
latest_tick payload =
    if truthy (get_value payload "last_tick")
    then ok (get_value payload "last_tick")
    else (do bars ← item payload "minute_bars"; last_of_items (items_in bars))

abbrev pub gateway_tick : Fields → Result Fields
gateway_tick payload = do
  tick ← latest_tick payload
  snapshot ← item payload "snapshot"
  freshness ← item payload "freshness"
  ok (field "tick" tick (field "snapshot" snapshot (field "freshness" freshness end)))

-- The type and the payload of the message of a processed event
unfoldable pub gateway_message_of : Text → Fields → Result (Option (Text × Fields))
unfolding find truthy text_eq
gateway_message_of result_type payload =
    if text_eq result_type (codes "snapshot")
    then (do tick ← gateway_tick payload; ok (some (codes "tick_realtime", tick)))
    else if text_eq result_type (codes "l2_order_book")
    then ok (some (codes "snapshot", payload))
    else if text_eq result_type (codes "big_trade_alert")
    then ok (some (codes "alert_realtime", payload))
    else if text_eq result_type (codes "broker_queue")
    then ok (some (codes "queue_realtime", payload))
    else ok none

module _ (py : Python) (fresh_id : Text → Text → ℕ → Text) (now : Text) where
  abbrev pub stamped_at : Text → Stamped → Result Fields → Result Fields × Stamped
  stamped_at symbol s (raise e) = (raise e, s)
  stamped_at symbol s (ok message) = (
    ok message,
    record s {
      latest_event_at_by_symbol =
          put s.latest_event_at_by_symbol symbol (get_value message "source_ts");
    },
  )

  -- `_terminal`
  unfoldable pub gateway_terminal :
      (message_type symbol : Text) → Fields → Option Text → Stamped → Result Fields × Stamped
  unfolding get put text_eq make_terminal_message validate_terminal_message find
  gateway_terminal message_type symbol payload source_ts s =
      let seq = number_at s.seq_by_symbol symbol + 1 in
      stamped_at symbol (record s { seq_by_symbol = put s.seq_by_symbol symbol seq })
        (do
          message ←
              make_terminal_message py (fresh_id message_type symbol seq) now message_type symbol
                (codes "gateway") payload seq source_ts none none
          _ ← validate_terminal_message py message
          ok message)

  abbrev pub one_message : Result Fields × Stamped → Result (List Fields) × Stamped
  one_message (ok message, s) = (ok (message ∷ []), s)
  one_message (raise e, s) = (raise e, s)

  abbrev pub message_made :
      Fields → Result (Option (Text × Fields)) → Stamped → Result (List Fields) × Stamped
  message_made processed (raise e) s = (raise e, s)
  message_made processed (ok none) s = (ok [], s)
  message_made processed (ok (some (message_type, payload))) s = one_message (
      gateway_terminal message_type (text_of py (get_value processed "symbol")) payload
        (some (text_of py (get_value processed "source_ts"))) s)

  abbrev pub event_checked : Fields → Result (Unit {0}) → Stamped → Result (List Fields) × Stamped
  event_checked processed (raise e) s = (raise e, s)
  event_checked processed (ok _) s =
      message_made processed
        (gateway_message_of (text_of py (get_value processed "result_type"))
          (fields_of (get_value processed "payload")))
        s

  -- A round of `terminal_messages_from_processed`
  unfoldable pub gateway_messages_of : Fields → Stamped → Result (List Fields) × Stamped
  unfolding validate_processed_market_event gateway_message_of gateway_terminal find
  gateway_messages_of processed =
      event_checked processed (validate_processed_market_event py processed)

  -- Messages, and those of the events after them
  abbrev pub more_messages :
      Result (List Fields) × Stamped
      → (Stamped → Result (List Fields) × Stamped)
      → Result (List Fields) × Stamped
  more_messages (raise e, s) later = (raise e, s)
  more_messages (ok ms, s) later = elim (later s).0 [
    | ok rest ↦ (ok (ms ++ rest), (later s).1)
    | raise e ↦ (raise e, (later s).1)
  ]

  abbrev pub record_checked :
      PolledRecord → Result (Unit {0}) → Stamped → Result (List Fields) × Stamped
  record_checked r (raise e) s = (raise e, s)
  record_checked r (ok _) s = gateway_messages_of r.entry.value s

  -- The loop of `to_terminal_messages`
  unfoldable pub messages_of_records : List PolledRecord → Stamped → Result (List Fields) × Stamped
  unfolding validate_event_bus_record_inputs gateway_messages_of
  messages_of_records [] s = (ok [], s)
  messages_of_records (r ∷ rs) s =
      more_messages (record_checked r (validate_event_bus_record_inputs processed_topic r.entry) s)
        (messages_of_records rs)

module _ {C : Type 0} (py : Python) (consumer : EventConsumer C) (lag : String → ℕ → C → ℕ) where
  -- if records: self.bus.commit(…)
  unfoldable pub commit_records : List PolledRecord → C → C
  unfolding next_committed_offset
  commit_records [] c = c
  commit_records (r ∷ rs) c =
      consumer.commit processed_topic
        (next_committed_offset (r ∷ rs) (consumer.committed_offset processed_topic c)) c

  abbrev pub polled : C → List PolledRecord
  polled c = consumer.poll processed_topic (consumer.committed_offset processed_topic c) c

  abbrev pub with_lag : GatewayV2 C → GatewayV2 C
  with_lag g = record g {
    kafka_lag = lag processed_topic (consumer.committed_offset processed_topic g.bus) g.bus;
  }

  abbrev pub messages_consumed :
      List PolledRecord
      → Result (List Fields) × Stamped
      → GatewayV2 C
      → Result (List Fields) × GatewayV2 C
  messages_consumed records (raise e, s) g = (raise e, record g { stamped = s })
  messages_consumed records (ok messages, s) g = (
    ok messages,
    with_lag (record g {
      bus = commit_records records g.bus;
      stamped = s;
      processed_records_consumed = g.processed_records_consumed + length records;
      terminal_messages_emitted = g.terminal_messages_emitted + length messages;
      last_terminal_messages = messages;
    }),
  )

  unfoldable pub to_terminal_messages :
      (Text → Text → ℕ → Text) → Text → GatewayV2 C → Result (List Fields) × GatewayV2 C
  unfolding messages_of_records commit_records
  to_terminal_messages fresh_id now g =
      messages_consumed (polled g.bus)
        (messages_of_records py fresh_id now (polled g.bus) g.stamped) g

  -- The loop of `drain_processed_shadow_records`
  unfoldable pub validate_records : List PolledRecord → Result (Unit {0})
  unfolding validate_event_bus_record_inputs validate_processed_market_event
  validate_records [] = ok tt
  validate_records (r ∷ rs) = do
    _ ← validate_event_bus_record_inputs processed_topic r.entry
    _ ← validate_processed_market_event py r.entry.value
    validate_records rs

  abbrev pub records_drained :
      List PolledRecord → Result (Unit {0}) → GatewayV2 C → Result ℕ × GatewayV2 C
  records_drained records (raise e) g = (raise e, g)
  records_drained records (ok _) g = (
    ok (length records),
    with_lag (record g {
      bus = commit_records records g.bus;
      shadow_processed_records_drained = g.shadow_processed_records_drained + length records;
    }),
  )

  unfoldable pub drain_processed_shadow_records : GatewayV2 C → Result ℕ × GatewayV2 C
  unfolding validate_records commit_records
  drain_processed_shadow_records g =
      records_drained (polled g.bus) (validate_records (polled g.bus)) g
