-- ===== src/Consumer.antt =====
-- backend/beast_market/runtime.py: `RawEventConsumerWorker`, which consumes raw events and commits offsets.
-- `C` is the state of the consumer (Kafka or `InMemoryEventBus`), `W` that of what the processors write.
-- A polled record is a dict with a key, a dict as its value, and an offset if the consumer gives one.
pub mod Offsets
use lynx_monitor.Prelude.{
  ℕ, zero, suc, ◌+◌, ◌≡◌, String, Text, Bool, true, false, Option, none, some, List, [], ◌∷◌, ◌++◌,
  if◌then◌else◌, Error, Result, ok, raise, ◌>>=◌, codes, take,
}
use lynx_monitor.Value.{Value, str, Fields, find}
use lynx_monitor.Contracts.{Python}
use lynx_monitor.Contracts.Events.{validate_raw_market_event}
use lynx_monitor.Bus.{BusRecord, DeadLetterRecord, validate_event_bus_record_inputs}

pub record PolledRecord : Type 0 where
  pub entry : BusRecord
  pub offset : Option ℕ

-- The protocol `EventConsumer`, with the law of its offsets: what was committed is what it reports.
-- `poll` and `commit` do not raise here; a consumer of a broker may.
pub record EventConsumer (C : Type 0) : Type 0 where
  pub poll : String → ℕ → C → List PolledRecord
  pub commit : String → ℕ → C → C
  pub committed_offset : String → C → ℕ
  pub committed_offset-commit :
      (topic : String) (n : ℕ) (c : C) → committed_offset topic (commit topic n c) ≡ n

-- Processed events, and terminal messages.
abbrev pub Output : Type 0
Output = List Fields × List Fields

-- The constructor's callbacks, and the two entries of `OctopusComputeV2` that the worker calls.
pub record Processors (W : Type 0) : Type 0 where
  pub runtime_event_processor : Option (Fields → Text → W → Result Output × W)
  pub state_provider : Option (Text → W → Option Fields)
  pub process_raw_event : Fields → Text → W → Result (List Fields) × W
  pub process_raw_event_with_state : Fields → Text → Fields → W → Result (List Fields) × W
  pub dead_letter_sink : Option (DeadLetterRecord → W → Result (Unit {0}) × W)

-- The fields of `WorkerStats` that this worker uses.
pub record WorkerStats : Type 0 where
  pub processed : ℕ
  pub failed : ℕ
  pub committed_offset : ℕ
  pub dead_letters : List DeadLetterRecord

pub record RawEventConsumerWorker : Type 0 where
  pub topic : String
  pub skip_bad_records : Bool
  pub stats : WorkerStats
  pub last_terminal_messages : List Fields

-- The local variables of `poll_and_process` beside the worker and the world.
pub record Progress (W : Type 0) : Type 0 where
  pub worker : RawEventConsumerWorker
  pub world : W
  pub processed_events : List Fields
  pub next_offset : ℕ
  pub should_commit : Bool

-- records[:max_records]
abbrev pub limited {ℓ} : {A : Type ℓ} → Option ℕ → List A → List A
limited none xs = xs
limited (some n) xs = take n xs

module _ {W : Type 0} (py : Python) (procs : Processors W) (trade_date : Text) where
  abbrev without_messages : Result (List Fields) × W → Result Output × W
  without_messages (ok events, w) = (ok (events, []), w)
  without_messages (raise e, w) = (raise e, w)

  -- str(raw_event.get("symbol") or ""); the event was validated, so its symbol is a text
  abbrev symbol_of : Fields → Text
  symbol_of event = elim (find "symbol" event) [ some (str s) ↦ s | _ ↦ [] ]

  -- `_process_raw_event`
  unfoldable pub process_one : Fields → W → Result Output × W
  unfolding find
  process_one event w = elim (procs.runtime_event_processor) [
    | some process ↦ process event trade_date w
    | none ↦ elim (procs.state_provider) [
      | none ↦ without_messages (procs.process_raw_event event trade_date w)
      | some provider ↦ elim (provider (symbol_of event) w) [
        | some state ↦
            without_messages (procs.process_raw_event_with_state event trade_date state w)
        | none ↦ without_messages (procs.process_raw_event event trade_date w)
      ]
    ]
  ]

  -- The body of the `try` of `poll_and_process`, up to the processing.
  unfoldable pub validate_and_process : String → BusRecord → W → Result Output × W
  unfolding validate_event_bus_record_inputs validate_raw_market_event process_one
  validate_and_process topic r w =
      elim (do _ ← validate_event_bus_record_inputs topic r; validate_raw_market_event py r.value) [
        | raise e ↦ (raise e, w)
        | ok _ ↦ process_one r.value w
      ]

  abbrev append_letter : WorkerStats → DeadLetterRecord → WorkerStats
  append_letter stats letter = record stats { dead_letters = stats.dead_letters ++ letter ∷ [] }

  -- `_write_dead_letter`
  unfoldable pub write_dead_letter : DeadLetterRecord → WorkerStats → W → WorkerStats × W
  write_dead_letter letter stats w = elim (procs.dead_letter_sink) [
    | none ↦ (stats, w)
    | some sink ↦
        let written = sink letter w in
        elim (written.0) [
          | ok _ ↦ (stats, written.1)
          | raise e ↦ (
            append_letter stats (record letter {
              reason = codes "raw_consumer_dead_letter_quarantine_failed: " ++ e.message;
            }),
            written.1,
          )
        ]
  ]

  -- int(record.get("offset", next_offset)) + 1
  abbrev after : PolledRecord → ℕ → ℕ
  after r next_offset = elim (r.offset) [ none ↦ next_offset + 1 | some n ↦ n + 1 ]

  unfoldable pub succeed : PolledRecord → Output → Progress W → Progress W
  succeed r output p =
      let next = after r p.next_offset in
      record p {
        processed_events = p.processed_events ++ output.0;
        next_offset = next;
        should_commit = true;
        worker = record (p.worker) {
          last_terminal_messages = p.worker.last_terminal_messages ++ output.1;
          stats = record (p.worker.stats) {
            committed_offset = next;
            processed = p.worker.stats.processed + 1;
          };
        };
      }

  -- The `except`: the dead letter, then the offset if bad records are skipped.
  unfoldable pub give_up : PolledRecord → Error → Progress W → Progress W
  unfolding write_dead_letter
  give_up r e p =
      let letter : DeadLetterRecord = record {
        topic = p.worker.topic;
        key = r.entry.key;
        value = r.entry.value;
        reason = e.message;
      } in
      let stats = record (p.worker.stats) { failed = p.worker.stats.failed + 1 } in
      let written = write_dead_letter letter (append_letter stats letter) p.world in
      let next = after r p.next_offset in
      if p.worker.skip_bad_records
      then record p {
        world = written.1;
        next_offset = next;
        should_commit = true;
        worker = record (p.worker) { stats = record (written.0) { committed_offset = next } };
      }
      else record p { world = written.1; worker = record (p.worker) { stats = written.0 } }

  -- One round of the loop; `false` where it breaks.
  unfoldable pub handle_record : PolledRecord → Progress W → Progress W × Bool
  unfolding succeed give_up
  handle_record r p =
      let outcome = validate_and_process p.worker.topic r.entry p.world in
      let p' = record p { world = outcome.1 } in
      elim (outcome.0) [
        | ok output ↦ (succeed r output p', true)
        | raise e ↦ (give_up r e p', p.worker.skip_bad_records)
      ]

  unfoldable pub handle_records : List PolledRecord → Progress W → Progress W
  handle_records [] p = p
  handle_records (r ∷ rs) p =
      let round = handle_record r p in
      elim (round.1) [ true ↦ handle_records rs round.0 | false ↦ round.0 ]

  module _ {C : Type 0} (consumer : EventConsumer C) where
    unfoldable pub poll_and_process :
        Option ℕ → RawEventConsumerWorker → C → W → List Fields × RawEventConsumerWorker × C × W
    unfolding handle_records
    poll_and_process max_records worker c w =
        let offset = consumer.committed_offset worker.topic c in
        let polled = consumer.poll worker.topic offset c in
        let records = limited max_records polled in
        let p = handle_records records (record {
          worker = record worker { last_terminal_messages = [] };
          world = w;
          processed_events = [];
          next_offset = offset;
          should_commit = false;
        }) in
        if p.should_commit
        then (
          p.processed_events,
          record (p.worker) {
            stats = record (p.worker.stats) { committed_offset = p.next_offset };
          },
          consumer.commit worker.topic p.next_offset c,
          p.world,
        )
        else (p.processed_events, p.worker, c, p.world)
