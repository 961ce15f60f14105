-- ===== src/Bus.antt =====
-- backend/beast_market/adapters.py: the event buses. A bus is an interface over its own state `W`;
-- `InMemoryEventBus` and `FailingEventBus` implement it, and `ReliableEventBus` wraps any of them.
pub mod InMemory
pub mod Failing
pub mod Reliable
pub mod Attempts
pub mod Publish
use lynx_monitor.Prelude.{
  ℕ, zero, suc, ◌+◌, ◌-◌, ◌≡◌, String, Text, Bool, true, false, not, ◌&&◌, ◌||◌, Option, none, some,
  List, [], ◌∷◌, ◌++◌, leb, if◌then◌else◌, ◌==◌, string_eq, text_eq, Error, Result, ok, raise,
  ◌>>=◌, fail, value_error, runtime_error, event_publish_error, codes, length, drop,
}
use lynx_monitor.Prelude.Dict.{Dict, get, put}
use lynx_monitor.Symbols.{is_canonical}
use lynx_monitor.Value.{Value, str, Fields, get_value, find}
use lynx_monitor.Contracts.{raw_topic, processed_topic, is_canonical_value}
use lynx_monitor.Contracts.Events.{is_text}

-- {"key": key, "value": value}; the value of a record is always a dict here
pub record BusRecord : Type 0 where
  pub key : Text
  pub value : Fields

-- A method returns or raises, and leaves a new state of the bus in both cases.
pub record EventBus (W : Type 0) : Type 0 where
  pub publish : String → Text → Fields → W → Result (Unit {0}) × W
  pub read : String → W → List BusRecord
  pub lag : String → ℕ → W → ℕ
  pub commit : String → ℕ → W → W
  pub committed_offset : String → W → ℕ

pub record PublishResult : Type 0 where
  pub topic : String
  pub key : Text
  pub event_id : Text
  pub acknowledged : Bool
  pub attempts : ℕ
  pub error : Option Text

pub record DeadLetterRecord : Type 0 where
  pub topic : String
  pub key : Text
  pub value : Fields
  pub reason : Text

abbrev pub is_market_topic : String → Bool
is_market_topic topic = topic == raw_topic || topic == processed_topic

unfoldable pub validate_event_bus_publish_inputs : String → Text → Fields → Result (Unit {0})
unfolding is_canonical is_canonical_value find text_eq
validate_event_bus_publish_inputs topic key value =
    if not (is_market_topic topic)
    then ok tt
    else if not (is_canonical key)
    then fail value_error (codes "Kafka event key must use canonical symbol format 00700.HK")
    else let symbol = get_value value "symbol" in
      if not (is_canonical_value symbol)
      then fail value_error (codes "Kafka event value symbol must use canonical format 00700.HK")
      else if not (is_text key symbol)
      then fail value_error (codes "Kafka event key must match event symbol")
      else ok tt

-- `validate_event_bus_record_inputs`, of a record that is a dict with its key and its value
unfoldable pub validate_event_bus_record_inputs : String → BusRecord → Result (Unit {0})
unfolding validate_event_bus_publish_inputs
validate_event_bus_record_inputs topic r = validate_event_bus_publish_inputs topic r.key r.value
