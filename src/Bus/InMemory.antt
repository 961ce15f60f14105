-- ===== src/Bus/InMemory.antt =====
-- adapters.py: the Kafka-shaped bus in memory.
use lynx_monitor.Prelude.{
  ℕ, ◌-◌, String, Text, none, some, List, [], ◌∷◌, ◌++◌, string_eq, Result, ok, raise, length, drop,
}
use lynx_monitor.Prelude.Dict.{Dict, get, put}
use lynx_monitor.Value.{Fields}
use lynx_monitor.Bus.{BusRecord, EventBus, validate_event_bus_publish_inputs}

-- `InMemoryEventBus`; its two dicts are `defaultdict`s.
pub record InMemoryEventBus : Type 0 where
  pub records : Dict String (List BusRecord)
  pub committed_offsets : Dict String ℕ

unfoldable pub read : String → InMemoryEventBus → List BusRecord
unfolding get
read topic b = elim (get b.records topic) [ none ↦ [] | some rs ↦ rs ]

unfoldable pub publish :
    String → Text → Fields → InMemoryEventBus → Result (Unit {0}) × InMemoryEventBus
unfolding validate_event_bus_publish_inputs read put
publish topic key value b = elim (validate_event_bus_publish_inputs topic key value) [
  | raise e ↦ (raise e, b)
  | ok _ ↦ (
    ok tt,
    record b {
      records = put b.records topic (read topic b ++ record { key = key; value = value } ∷ []);
    },
  )
]

-- `max(0, …)` is the subtraction of natural numbers.
unfoldable pub lag : String → ℕ → InMemoryEventBus → ℕ
unfolding read
lag topic committed_offset b = length (read topic b) - committed_offset

unfoldable pub poll : String → ℕ → InMemoryEventBus → List BusRecord
unfolding read
poll topic offset b = drop offset (read topic b)

unfoldable pub commit : String → ℕ → InMemoryEventBus → InMemoryEventBus
unfolding put
commit topic offset b = record b { committed_offsets = put b.committed_offsets topic offset }

unfoldable pub committed_offset : String → InMemoryEventBus → ℕ
unfolding get
committed_offset topic b = elim (get b.committed_offsets topic) [ none ↦ 0 | some n ↦ n ]

abbrev pub in_memory : EventBus InMemoryEventBus
in_memory = record {
  publish = publish;
  read = read;
  lag = lag;
  commit = commit;
  committed_offset = committed_offset;
}
