-- ===== src/Ingest.antt =====
-- backend/beast_market/runtime.py: `RealtimeIngestWorker`, which takes the payloads of xtquant's callback through
-- the bounded queue to the collector. The collector, the normaliser and the sink of rejected payloads are
-- parameters: a call of them returns or raises, and leaves another world `W`. Latencies are left out.
pub mod Drain
use lynx_monitor.Prelude.{
  ℕ, zero, suc, ◌+◌, Text, Bool, true, false, Option, none, some, List, [], ◌∷◌, ◌++◌,
  if◌then◌else◌, codes, text_eq, Result, ok, raise, Error, ErrorKind, event_publish_error,
  key_error, runtime_error, contract_error, other_error, fail, value_error,
}
use lynx_monitor.Symbols.{complete, is_empty}
use lynx_monitor.Value.{Value, null, dict, Fields, find, get_value}
use lynx_monitor.Contracts.{Python}
use lynx_monitor.Runtime.{text_of, text_or, as_dict}
use lynx_monitor.RawQueue.{RawCallback, or_text, BoundedRawEventQueue, push, pop, backlog}

-- What a normaliser returns
pub data Normalized : Type 0 where
  pair : Text → Fields → Normalized
  object : Fields → Normalized
  other_value : Normalized

-- `RealtimeCollectorV2`, as far as the worker calls it. `publish_degraded` is the two writes of its health.
pub record Collector (W : Type 0) : Type 0 where
  pub ingest_tick : Text → Fields → W → Result Fields × W
  pub ingest_event :
      (kind symbol : Text) (period source_ts : Value) → Fields → W → Result Fields × W
  pub record_queue_backlog : Text → ℕ → (period stream_kind : Value) → W → W
  pub publish_degraded : W → W

-- A dead letter of the raw topic
pub record DeadCallback (P : Type 0) : Type 0 where
  pub key : Text
  pub value : RawCallback P
  pub reason : Text

pub record RealtimeIngestWorker (P : Type 0) : Type 0 where
  pub queue : BoundedRawEventQueue (RawCallback P)
  pub received : ℕ
  pub enqueued : ℕ
  pub rejected : ℕ
  pub processed : ℕ
  pub failed : ℕ
  pub dead_letters : List (DeadCallback P)

pub record Ingesting (P W : Type 0) : Type 0 where
  pub worker : RealtimeIngestWorker P
  pub world : W

pub record IngestHooks (P W : Type 0) : Type 0 where
  pub collector : Collector W
  pub normalizer : RawCallback P → Result Normalized
  pub reject_sink : Option (RawCallback P → Text → W → Result (Unit {0}) × W)

unfoldable pub callback_symbol : {P : Type 0} → RawCallback P → Text
unfolding complete
callback_symbol payload = complete (or_text payload.symbol (or_text payload.code []))

abbrev pub is_publish_error : Error → Bool
is_publish_error e = elim (e.kind) [
  | event_publish_error ↦ true
  | value_error ↦ false
  | key_error ↦ false
  | runtime_error ↦ false
  | contract_error ↦ false
  | other_error ↦ false
]

module _ {P : Type 0} where
  abbrev pub dead_callback : RawCallback P → Text → DeadCallback P
  dead_callback payload reason = record {
    key = elim (payload.symbol) [ none ↦ [] | some s ↦ s ];
    value = payload;
    reason = reason;
  }

  -- stats.dead_letters.append(…)
  abbrev pub add_dead : RawCallback P → Text → RealtimeIngestWorker P → RealtimeIngestWorker P
  add_dead payload reason w = record w {
    dead_letters = w.dead_letters ++ dead_callback payload reason ∷ [];
  }

module _ {P W : Type 0} (py : Python) (hooks : IngestHooks P W) where
  abbrev pub sink_answered :
      RawCallback P → Result (Unit {0}) × W → RealtimeIngestWorker P → Ingesting P W
  sink_answered payload (ok _, world) w = record { worker = w; world = world }
  sink_answered payload (raise e, world) w = record {
    worker = add_dead payload (codes "callback_rejection_quarantine_failed: " ++ e.message) w;
    world = world;
  }

  -- `_record_rejected_callback`
  unfoldable pub record_rejected_callback : RawCallback P → Text → Ingesting P W → Ingesting P W
  record_rejected_callback payload reason x = elim (hooks.reject_sink) [
    | none ↦ x
    | some sink ↦ sink_answered payload (sink payload reason x.world) x.worker
  ]

  -- collector.record_queue_backlog(symbol, backlog), if there is a symbol
  abbrev pub note_backlog : Text → Ingesting P W → Ingesting P W
  note_backlog symbol x = if is_empty symbol then x else record x {
    world = hooks.collector.record_queue_backlog symbol (backlog x.worker.queue) null null x.world;
  }

  unfoldable pub receive_callback : RawCallback P → Ingesting P W → Bool × Ingesting P W
  unfolding push record_rejected_callback callback_symbol
  receive_callback payload x =
      let (queue, accepted) = push payload x.worker.queue in
      let w : RealtimeIngestWorker P = record x.worker {
        queue = queue;
        received = x.worker.received + 1;
      } in
      let counted : Ingesting P W =
        if accepted
        then record x { worker = record w { enqueued = w.enqueued + 1 } }
        else record_rejected_callback payload (codes "raw_callback_queue_full")
            (record x { worker = record w { rejected = w.rejected + 1 } }) in
      (accepted, note_backlog (callback_symbol payload) counted)

  -- `_ingest_normalized`
  unfoldable pub ingest_normalized : Normalized → W → Result Fields × W
  unfolding text_or find
  ingest_normalized (pair symbol tick) w = hooks.collector.ingest_tick symbol tick w
  ingest_normalized other_value w = (
    fail value_error
        (codes "normalizer must return a (symbol, tick) tuple or normalized event object"),
    w,
  )
  ingest_normalized (object normalized) w = elim (as_dict (get_value normalized "payload")) [
    | none ↦ (fail value_error (codes "normalized event payload must be an object"), w)
    | some payload ↦
        hooks.collector.ingest_event (text_or py (get_value normalized "kind") [])
          (text_or py (get_value normalized "symbol") []) (get_value normalized "period")
          (get_value normalized "source_ts") payload w
  ]

  abbrev pub normalized_then : Result Normalized → W → Result Fields × W
  normalized_then (ok n) w = ingest_normalized n w
  normalized_then (raise e) w = (raise e, w)

  -- The rest of the `try`: both backlogs of the event's symbol
  unfoldable pub ingested : Fields → Ingesting P W → Ingesting P W
  unfolding find
  ingested event x =
      let symbol = text_of py (get_value event "symbol") in
      let n = backlog x.worker.queue in
      let w1 =
        hooks.collector.record_queue_backlog symbol n (get_value event "period")
          (get_value event "kind") x.world in
      record {
        worker = record x.worker { processed = x.worker.processed + 1 };
        world = hooks.collector.record_queue_backlog symbol n null null w1;
      }

  -- f"{failure_prefix}: {error}"
  abbrev pub failure_reason : Error → Text
  failure_reason e =
      (if is_publish_error e then codes "raw_publish_failed" else codes "normalization_failed")
      ++ (codes ": " ++ e.message)

  -- The `except`, after the note of the backlog
  abbrev pub failure_counted : RawCallback P → Error → Ingesting P W → Ingesting P W
  failure_counted payload e x = record {
    worker = add_dead payload e.message (record x.worker { failed = x.worker.failed + 1 });
    world = if is_publish_error e then hooks.collector.publish_degraded x.world else x.world;
  }

  unfoldable pub ingest_failed : RawCallback P → Error → Ingesting P W → Ingesting P W
  unfolding record_rejected_callback callback_symbol
  ingest_failed payload e x =
      record_rejected_callback payload (failure_reason e)
        (failure_counted payload e (note_backlog (callback_symbol payload) x))

  abbrev pub ingest_answered :
      RawCallback P → Result Fields × W → RealtimeIngestWorker P → Option Fields × Ingesting P W
  ingest_answered payload (ok event, world) w =
      (some event, ingested event (record { worker = w; world = world }))
  ingest_answered payload (raise e, world) w =
      (none, ingest_failed payload e (record { worker = w; world = world }))

  unfoldable pub drain_once : Ingesting P W → Option Fields × Ingesting P W
  unfolding pop ingest_normalized ingested ingest_failed
  drain_once x =
      let (out, queue) = pop x.worker.queue in
      let w : RealtimeIngestWorker P = record x.worker { queue = queue } in
      elim out [
        | none ↦ (none, record x { worker = w })
        | some payload ↦
            ingest_answered payload (normalized_then (hooks.normalizer payload) x.world) w
      ]

  abbrev pub with_event : Option Fields → List Fields → List Fields
  with_event none events = events
  with_event (some e) events = e ∷ events

  -- `drain_all`: the loop goes on while there is a backlog. The fuel is the number of its rounds.
  unfoldable pub drain_all : ℕ → Ingesting P W → List Fields × Ingesting P W
  unfolding drain_once
  drain_all zero x = ([], x)
  drain_all (suc fuel) x =
      let (event, x') = drain_once x in
      let (events, y) = drain_all fuel x' in
      elim (backlog x.worker.queue) [ zero ↦ ([], x) | suc n ↦ (with_event event events, y) ]
