-- ===== src/Tests/Stages.antt =====
-- The compute stage at a broker queue, and at trades of a minute.
use lynx_monitor.Prelude.{
  Text, ℕ, ◌≡◌, refl, true, false, ok, raise, some, [], ◌∷◌, codes, text_eq, length, ◌+◌, List,
}
use lynx_monitor.Value.{int, pos, str, list, dict, nil, cons, Fields, field, end}
use lynx_monitor.Contracts.{Python}
use lynx_monitor.Session.{Datetimes}
use lynx_monitor.Bus.InMemory
use lynx_monitor.Bus.InMemory.{InMemoryEventBus}
use lynx_monitor.Compute.Confirmed.{Arithmetic}
use lynx_monitor.Compute.Minutes.{minute_bucket}
use lynx_monitor.Compute.Changes.{apply_broker_queue_to_state}
use lynx_monitor.Compute.Stage.{
  OctopusComputeV2, Job, proceed, edit, next_number, publish_processed, cache_set_terminal_snapshot,
  note_event,
}
use lynx_monitor.Compute.Stage.Handlers.{Services, process_broker_queue, deliver}
use lynx_monitor.Compute.Stage.Ticks.{should_publish_latest_bar, process_raw_event}
use lynx_monitor.Compute.Stage.Handled.{IsProcessed, process_raw_event-IsProcessed}
use lynx_monitor.Runtime.RawEvents.{number_at}
use lynx_monitor.Compute.Stage.Sequences.{
  IsIncreasing, process_raw_events, process_raw_events-IsIncreasing,
}
use lynx_monitor.Compute.Stage.Throttle.{is_later, should_publish-should_publish}

abbrev python : Python
python = record { format = λ v. codes "1"; fromisoformat = λ t. true }

abbrev arithmetic : Arithmetic
arithmetic = record {
  numbers = record {
    to_float = λ v. ok v;
    to_int = λ v. ok v;
    plus = λ v w. v;
    maximum = λ v w. v;
    minimum = λ v w. v;
    equal = λ v w. false;
  };
  minus = λ v w. int (pos 0);
  times = λ v w. v;
  percent = λ v w. v;
  greater = λ v w. false;
  at_least = λ v w. false;
}

-- All timestamps lie in one minute of the session.
abbrev datetimes : Datetimes Text
datetimes = record {
  fromisoformat = λ t. some t;
  has_tzinfo = λ d. true;
  replace_tzinfo = λ d. d;
  astimezone = λ d. d;
  date_text = λ d. codes "20260602";
  hour = λ d. 10;
  minute = λ d. 0;
  start_of_minute = λ d. codes "10:00";
  isoformat = λ d. d;
}

abbrev services : Services InMemoryEventBus ℕ Text
services = record {
  bus = InMemory.in_memory;
  set_terminal_snapshot = λ trade_date symbol state n. (ok tt, n + 1);
  datetimes = datetimes;
  is_after = λ d e. false;
  seconds = λ d. int (pos 0);
  now = codes "10:05";
  now_iso = codes "2026-06-02T10:05:00+08:00";
  fresh_id = λ type symbol seq. codes "id";
  thresholds = record {
    volume_baseline_ratio = int (pos 0);
    min_volume = int (pos 0);
    turnover = int (pos 0);
  };
}

abbrev symbol : Text
symbol = codes "00700.HK"

abbrev state : Fields
state =
    field "snapshot" (dict (field "tradeDate" (str (codes "20260602")) end))
      (field "broker_queue" (dict end) end)

abbrev stage : OctopusComputeV2 InMemoryEventBus ℕ
stage = record {
  bus = record { records = []; committed_offsets = [] };
  cache = 0;
  seq_by_symbol = (symbol, 4) ∷ [];
  state_by_symbol = (symbol, state) ∷ [];
  bod_by_symbol = [];
  latest_bar_flush_at_by_symbol = [];
  latest_bar_flushed_minute_by_symbol = [];
  health = record {
    process = codes "running";
    redis = codes "connected";
    kafka_lag = 0;
    latest_event_at_by_symbol = [];
  };
}

abbrev queue_event : Fields
queue_event = field "kind" (str (codes "broker_queue")) (
    field "symbol" (str symbol) (
      field "source_ts" (str (codes "2026-06-02T10:00:00+08:00")) (
        field "ingest_ts" (str (codes "2026-06-02T10:00:01+08:00")) (
          field "payload"
            (dict
              (field "side" (str (codes "ask")) (field "entries" (list (cons (dict end) nil)) end)))
            end))))

process_raw_event-IsProcessed_example :
    IsProcessed python arithmetic services stage queue_event
      (codes "20260602")
      (process_raw_event python arithmetic services queue_event (codes "20260602") stage)
process_raw_event-IsProcessed_example =
    process_raw_event-IsProcessed python arithmetic services stage queue_event (codes "20260602")

-- It returns one event.
abbrev number_of_events : ℕ
number_of_events =
    elim (process_raw_event python arithmetic services queue_event (codes "20260602") stage).0 [
      | ok events ↦ length events
      | raise e ↦ 0
    ]

one_event : number_of_events ≡ 1
unfolding process_raw_event process_broker_queue deliver proceed edit apply_broker_queue_to_state
    next_number publish_processed cache_set_terminal_snapshot note_event text_eq InMemory.publish
one_event = refl

abbrev job : Job InMemoryEventBus ℕ
job = record { state = state; stage = stage }

abbrev first_trade : Text
first_trade = codes "10:00:01"

abbrev second_trade : Text
second_trade = codes "10:00:02"

minute_of_trade : minute_bucket datetimes services.is_after first_trade ≡ ok (codes "10:00")
unfolding minute_bucket
minute_of_trade = refl

minute_of_next : minute_bucket datetimes services.is_after second_trade ≡ ok (codes "10:00")
unfolding minute_bucket
minute_of_next = refl

first_published :
    (should_publish_latest_bar python arithmetic services symbol first_trade job).0 ≡ ok true
unfolding should_publish_latest_bar proceed text_eq
first_published = refl

-- The second trade of the minute is within the interval.
should_publish-should_publish_example :
    (should_publish_latest_bar python arithmetic services symbol second_trade
      (should_publish_latest_bar python arithmetic services symbol first_trade job).1).0
    ≡ ok (
        is_later python arithmetic services symbol
          (codes "10:00")
          first_trade
          (codes "10:00")
          second_trade)
should_publish-should_publish_example =
    should_publish-should_publish python arithmetic services symbol (codes "10:00") first_trade
      (codes "10:00") second_trade job (refl, minute_of_trade) (refl, minute_of_next)
      first_published

-- Two queues of the symbol, and one of a symbol that has no state
abbrev calls : List (Fields × Text)
calls =
    (queue_event, codes "20260602")
    ∷ (field "symbol" (str (codes "00005.HK")) queue_event, codes "20260602")
    ∷ (queue_event, codes "20260602")
    ∷ []

process_raw_events-IsIncreasing_example :
    IsIncreasing
      (number_at stage.seq_by_symbol symbol)
      (process_raw_events python arithmetic services symbol calls stage).0
      (number_at
        (process_raw_events python arithmetic services symbol calls stage).1.seq_by_symbol
        symbol)
process_raw_events-IsIncreasing_example =
    process_raw_events-IsIncreasing python arithmetic services symbol calls stage
