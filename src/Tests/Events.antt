-- ===== src/Tests/Events.antt =====
-- Symbols, buses and the consumer.
use lynx_monitor.Prelude.{
  text_eq, Text, ℕ, ◌+◌, ◌≡◌, ◌⊎◌, inr, refl, codes, true, false, none, some, [], ◌∷◌, arith, ok,
  string_eq,
}
use lynx_monitor.Symbols.{normalize_subscription_symbol, normalize_symbol}
use lynx_monitor.Symbols.Normal.{normalize_symbol_agrees}
use lynx_monitor.Value.{int, pos, get_value, Fields, end, field, str, dict}
use lynx_monitor.Contracts.{Python, raw_topic}
use lynx_monitor.Contracts.Events.{make_raw_market_event, validate_raw_market_event, envelope}
use lynx_monitor.Contracts.Validated.{make_raw-validated}
use lynx_monitor.Collector.{RealtimeCollectorV2, new_collector, ingest_event}
use lynx_monitor.Collector.Numbering.{IsNumbered, ingest_event-IsNumbered}
use lynx_monitor.TerminalGateway.{GatewayV2, to_terminal_messages}
use lynx_monitor.TerminalGateway.Commit.{IsConsumed, to_terminal_messages-IsConsumed}
use lynx_monitor.Bus.{validate_event_bus_publish_inputs}
use lynx_monitor.Bus.InMemory
use lynx_monitor.Bus.InMemory.{InMemoryEventBus}
use lynx_monitor.Bus.Failing.{FailingEventBus, failing}
use lynx_monitor.Bus.Reliable.{ReliableEventBus, publish}
use lynx_monitor.Bus.Publish.{Accounted, publish-Accounted, publish-failing, read-publish}
use lynx_monitor.Consumer.{
  EventConsumer, Processors, RawEventConsumerWorker, PolledRecord, poll_and_process,
}
use lynx_monitor.Consumer.Offsets.{passed, poll-offset}

normalize_symbol_agrees_example : normalize_symbol (codes " 700 ") ≡ codes "00700.HK"
unfolding normalize_subscription_symbol
normalize_symbol_agrees_example = normalize_symbol_agrees (codes " 700 ")

abbrev python : Python
python = record { format = λ v. []; fromisoformat = λ t. true }

abbrev trade : Fields
trade = field "symbol" (str (codes "00700.HK")) (field "event_id" (str (codes "e1")) end)

abbrev memory : InMemoryEventBus
memory = record { records = []; committed_offsets = [] }

abbrev flaky : ReliableEventBus FailingEventBus
flaky = record {
  inner = record { fail_for_attempts = 2; attempts = 0; base = memory };
  retries = 2;
  spool = [];
  dead_letters = [];
  results = [];
}

valid_trade : validate_event_bus_publish_inputs raw_topic (codes "00700.HK") trade ≡ ok tt
unfolding validate_event_bus_publish_inputs
valid_trade = refl

publish-failing_example :
    ((publish python failing raw_topic (codes "00700.HK") trade flaky).0 ≡ ok tt)
    × ((publish python failing raw_topic (codes "00700.HK") trade flaky).1.inner.attempts ≡ 3)
    × (InMemory.read raw_topic
          (publish python failing raw_topic (codes "00700.HK") trade flaky).1.inner.base
        ≡ record { key = codes "00700.HK"; value = trade } ∷ [])
unfolding InMemory.read
publish-failing_example =
    publish-failing python raw_topic (codes "00700.HK") trade flaky valid_trade refl (omega arith)

-- With one retry the same event is spooled.
publish-Accounted_example :
    Accounted python failing raw_topic
      (codes "00700.HK")
      trade
      (publish python failing raw_topic (codes "00700.HK") trade (record flaky { retries = 1 })).0
      (record flaky { retries = 1 })
      (publish python failing raw_topic (codes "00700.HK") trade (record flaky { retries = 1 })).1
publish-Accounted_example =
    publish-Accounted python failing raw_topic (codes "00700.HK") trade
      (record flaky { retries = 1 })

read-publish_example :
    InMemory.read raw_topic (InMemory.publish raw_topic (codes "00700.HK") trade memory).1
    ≡ record { key = codes "00700.HK"; value = trade } ∷ []
unfolding InMemory.read
read-publish_example = read-publish raw_topic (codes "00700.HK") trade memory raw_topic valid_trade

-- A log that keeps the offset committed last, and gives two events without the fields they need.
abbrev polled : ℕ → PolledRecord
polled n = record { entry = record { key = codes "00700.HK"; value = trade }; offset = some n }

abbrev log : EventConsumer ℕ
log = record {
  poll = λ topic offset c. polled offset ∷ polled (offset + 1) ∷ [];
  commit = λ topic n c. n;
  committed_offset = λ topic c. c;
  committed_offset-commit = λ topic n c. refl;
}

abbrev processors : Processors Unit
processors = record {
  runtime_event_processor = none;
  state_provider = none;
  process_raw_event = λ event trade_date w. (ok (event ∷ []), w);
  process_raw_event_with_state = λ event trade_date state w. (ok (event ∷ []), w);
  dead_letter_sink = none;
}

abbrev worker : RawEventConsumerWorker
worker = record {
  topic = raw_topic;
  skip_bad_records = true;
  stats = record { processed = 0; failed = 0; committed_offset = 7; dead_letters = [] };
  last_terminal_messages = [];
}

poll-offset_example :
    (log.committed_offset raw_topic
          (poll_and_process python processors (codes "20260601") log none worker 7 tt).2
        + 0
      ≡ 7
        + passed python processors
            (codes "20260601")
            (poll_and_process python processors (codes "20260601") log none worker 7 tt).1)
    × ((passed python processors
            (codes "20260601")
            (poll_and_process python processors (codes "20260601") log none worker 7 tt).1
          ≡ 2)
        ⊎ ((true ≡ false)
            × ((poll_and_process python processors
                  (codes "20260601")
                  log
                  none
                  worker
                  7
                  tt).1.stats.failed
                ≡ 1)))
poll-offset_example =
    poll-offset python processors (codes "20260601") log none worker 7 tt (inr refl, (inr refl, tt))

-- A tick as the callback's worker makes it.
abbrev payload : Fields
payload =
    field "price" (int (pos 300))
      (field "volume" (int (pos 100)) (field "turnover" (int (pos 0)) end))

abbrev noon : Text
noon = codes "2026-06-01T12:00:00+08:00"

abbrev tick_event : Fields
tick_event =
    envelope python "kind" (str (codes "tick")) (codes "e1") (codes "00700.HK") (codes "xtquant")
      noon noon payload 1

tick_made :
    make_raw_market_event python
      (codes "e1")
      noon
      (codes "tick")
      (codes "00700.HK")
      (codes "xtquant")
      payload
      1
      none
      none
      none
      none
    ≡ ok tick_event
unfolding make_raw_market_event text_eq
tick_made = refl

make_raw-validated_example :
    (validate_raw_market_event python tick_event ≡ ok tt)
    × (get_value tick_event "symbol" ≡ str (codes "00700.HK"))
    × (validate_event_bus_publish_inputs raw_topic (codes "00700.HK") tick_event ≡ ok tt)
make_raw-validated_example =
    make_raw-validated python raw_topic (codes "e1") noon (codes "tick") (codes "00700.HK")
      (codes "xtquant") payload 1 none none none none tick_event tick_made

abbrev collector : RealtimeCollectorV2 InMemory.InMemoryEventBus
collector =
    new_collector memory (codes "xtquant") (record { max_queue_backlog = 5; state_by_symbol = [] })

ingest_event-IsNumbered_example :
    IsNumbered python InMemory.in_memory
      (λ v w. ok v)
      (codes "2026-06-01T10:00:00+08:00")
      (codes "tick")
      (codes "00700.HK")
      none
      collector
      (ingest_event python InMemory.in_memory
        (λ v w. ok v)
        (codes "2026-06-01T10:00:00+08:00")
        (codes "id")
        (codes "tick")
        (codes "00700.HK")
        end
        none
        none
        collector)
ingest_event-IsNumbered_example =
    ingest_event-IsNumbered python InMemory.in_memory (λ v w. ok v)
      (codes "2026-06-01T10:00:00+08:00") (codes "id") (codes "tick") (codes "00700.HK") end none
      none collector

-- A broker queue as the compute stage publishes it, and a bus that polls it.
abbrev processed_queue : Fields
processed_queue =
    envelope python "result_type" (str (codes "broker_queue")) (codes "p1") (codes "00700.HK")
      (codes "octopus") noon noon (field "broker_queue" (dict end) end) 4

abbrev processed_log : EventConsumer ℕ
processed_log = record {
  poll = λ topic offset c.
      record {
        entry = record { key = codes "00700.HK"; value = processed_queue };
        offset = some offset;
      }
      ∷ [];
  commit = λ topic n c. n;
  committed_offset = λ topic c. c;
  committed_offset-commit = λ topic n c. refl;
}

abbrev gateway : GatewayV2 ℕ
gateway = record {
  bus = 7;
  stamped = record { seq_by_symbol = []; latest_event_at_by_symbol = [] };
  processed_records_consumed = 0;
  shadow_processed_records_drained = 0;
  direct_runtime_messages_emitted = 0;
  terminal_messages_emitted = 0;
  last_terminal_messages = [];
  kafka_lag = 0;
}

to_terminal_messages-IsConsumed_example :
    IsConsumed python processed_log
      (λ topic n c. 0)
      gateway
      (to_terminal_messages python processed_log
        (λ topic n c. 0)
        (λ t s n. codes "id")
        noon
        gateway)
to_terminal_messages-IsConsumed_example =
    to_terminal_messages-IsConsumed python processed_log (λ topic n c. 0) (λ t s n. codes "id") noon
      gateway

consumed_offset :
    (to_terminal_messages python processed_log
      (λ topic n c. 0)
      (λ t s n. codes "id")
      noon
      gateway).1.bus
    ≡ 8
unfolding to_terminal_messages text_eq
consumed_offset = refl
