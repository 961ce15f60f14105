-- ===== src/Collector.antt =====
-- backend/beast_market/pipeline.py: `RealtimeCollectorV2`, which numbers the raw events of a symbol, publishes them to
-- a bus and keeps the freshness of their streams. A method gets the time `now` that `now_iso()` would give it and
-- the id `fresh` that would be made for its event; `times` is the product of two numbers of a tick.
pub mod Numbering
use lynx_monitor.Prelude.{
  ℕ, ◌+◌, String, Text, Bool, true, false, Option, none, some, List, [], ◌∷◌, if◌then◌else◌, codes,
  text_eq, text_equality, Result, ok, raise, ◌>>=◌,
}
use lynx_monitor.Prelude.Dict.{Dict, get, put}
use lynx_monitor.Symbols.{is_empty}
use lynx_monitor.Value.{
  ℤ, Value, str, list, nil, Fields, field, end, find, has, item, assign, get_value,
}
use lynx_monitor.Contracts.{Python, raw_topic}
use lynx_monitor.Contracts.Events.{make_raw_market_event}
use lynx_monitor.Bus.{EventBus}
use lynx_monitor.Freshness.{
  SymbolFreshness, SymbolFreshnessTracker, Clock, Report, mark_subscribed, mark_unsubscribed,
  record_event, record_backlog, evaluate, snapshot_from, latest_event_at_by_symbol,
}
use lynx_monitor.Runtime.{text_of, text_or}
use lynx_monitor.Runtime.RawEvents.{number_at}
use lynx_monitor.Bars.{or_value}

pub record HealthStatus : Type 0 where
  pub process : Text
  pub kafka : Text
  pub redis : Text
  pub kafka_lag : Option ℕ
  pub latest_event_at_by_symbol : Dict Text Text
  pub symbol_freshness : List (Text × SymbolFreshness)

pub record RealtimeCollectorV2 (W : Type 0) : Type 0 where
  pub bus : W
  pub source : Text
  pub seq_by_symbol : Dict Text ℕ
  pub health : HealthStatus
  pub freshness : SymbolFreshnessTracker

unfoldable pub new_collector :
    {W : Type 0} → W → Text → SymbolFreshnessTracker → RealtimeCollectorV2 W
new_collector bus source freshness = record {
  bus = bus;
  source = source;
  seq_by_symbol = [];
  health = record {
    process = codes "running";
    kafka = codes "connected";
    redis = codes "unknown";
    kafka_lag = some 0;
    latest_event_at_by_symbol = [];
    symbol_freshness = [];
  };
  freshness = freshness;
}

module _ {W : Type 0} where
  -- `_sync_freshness_health`
  unfoldable pub sync_freshness_health : RealtimeCollectorV2 W → RealtimeCollectorV2 W
  unfolding latest_event_at_by_symbol snapshot_from
  sync_freshness_health c = record c {
    health = record c.health {
      latest_event_at_by_symbol = latest_event_at_by_symbol c.freshness;
      symbol_freshness = snapshot_from c.freshness.state_by_symbol;
    };
  }

  unfoldable pub subscribe_symbol : Text → Text → RealtimeCollectorV2 W → RealtimeCollectorV2 W
  unfolding mark_subscribed sync_freshness_health
  subscribe_symbol now symbol c =
      sync_freshness_health
        (record c { freshness = mark_subscribed now symbol none none c.freshness })

  unfoldable pub unsubscribe_symbol : Text → RealtimeCollectorV2 W → RealtimeCollectorV2 W
  unfolding mark_unsubscribed sync_freshness_health
  unsubscribe_symbol symbol c =
      sync_freshness_health
        (record c { freshness = mark_unsubscribed symbol none none c.freshness })

  unfoldable pub record_queue_backlog :
      Text → ℤ → (period stream_kind : Option Text) → RealtimeCollectorV2 W → RealtimeCollectorV2 W
  unfolding record_backlog sync_freshness_health
  record_queue_backlog symbol backlog period stream_kind c =
      sync_freshness_health
        (record c { freshness = record_backlog symbol backlog period stream_kind c.freshness })

  abbrev pub degraded_for : List Text → RealtimeCollectorV2 W → RealtimeCollectorV2 W
  degraded_for [] c = c
  degraded_for (s ∷ ss) c = record c { health = record c.health { process = codes "degraded" } }

  abbrev evaluated : Result Report → RealtimeCollectorV2 W → Result Report × RealtimeCollectorV2 W
  evaluated (raise e) c = (raise e, c)
  evaluated (ok report) c =
      (ok report, degraded_for report.resubscribe_symbols (sync_freshness_health c))

  unfoldable pub evaluate_freshness :
      {T : Type 0}
      → Clock T
      → Text
      → Option Text
      → RealtimeCollectorV2 W
      → Result Report × RealtimeCollectorV2 W
  unfolding evaluate sync_freshness_health
  evaluate_freshness clock now_iso now c =
      let (report, freshness) = evaluate clock now_iso now c.freshness in
      evaluated report (record c { freshness = freshness })

module _ {W : Type 0} (py : Python) (bus : EventBus W) (times : Value → Value → Result Value) where
  -- The two records of an event, once it is published
  abbrev pub recorded :
      (now kind symbol : Text)
      → Option Text
      → Fields
      → RealtimeCollectorV2 W
      → RealtimeCollectorV2 W
  recorded now kind symbol period event c =
      let source_ts = text_of py (get_value event "source_ts") in
      let ingest_ts = text_of py (get_value event "ingest_ts") in
      let t = record_event now symbol source_ts (some ingest_ts) period (some kind) c.freshness in
      sync_freshness_health
        (record c { freshness = record_event now symbol source_ts (some ingest_ts) none none t })

  abbrev pub published :
      (now kind symbol : Text)
      → Option Text
      → Fields
      → Result (Unit {0}) × W
      → RealtimeCollectorV2 W
      → Result Fields × RealtimeCollectorV2 W
  published now kind symbol period event (ok _, w) c =
      (ok event, recorded now kind symbol period event (record c { bus = w }))
  published now kind symbol period event (raise e, w) c = (raise e, record c { bus = w })

  abbrev pub made :
      (now kind symbol : Text)
      → Option Text
      → Result Fields
      → RealtimeCollectorV2 W
      → Result Fields × RealtimeCollectorV2 W
  made now kind symbol period (raise e) c = (raise e, c)
  made now kind symbol period (ok event) c =
      published now kind symbol period event (bus.publish raw_topic symbol event c.bus) c

  unfoldable pub ingest_event :
      (now fresh : Text) (kind symbol : Text)
      → Fields
      → (period source_ts : Option Text) → RealtimeCollectorV2 W
      → Result Fields × RealtimeCollectorV2 W
  unfolding mark_subscribed get put text_eq make_raw_market_event record_event sync_freshness_health
      find
  ingest_event now fresh kind symbol payload period source_ts c =
      let seq = number_at c.seq_by_symbol symbol + 1 in
      made now kind symbol period
        (make_raw_market_event py fresh now kind symbol c.source payload seq source_ts none period
          none)
        (record c {
          freshness = mark_subscribed now symbol period (some kind) c.freshness;
          seq_by_symbol = put c.seq_by_symbol symbol seq;
        })

  -- tick.get(key, default)
  abbrev pub get_default : Fields → String → Value → Value
  get_default fs k v = elim (find k fs) [ none ↦ v | some w ↦ w ]

  abbrev pub optional_keys : List String
  optional_keys =
      "participant_id" ∷ "participant_name" ∷ "broker_name" ∷ "is_highlighted" ∷ "trade_type"
      ∷ "active_broker_code" ∷ "broker_code_source" ∷ []

  unfoldable pub with_optional : Fields → List String → Fields → Fields
  unfolding find assign
  with_optional tick [] payload = payload
  with_optional tick (k ∷ ks) payload =
      with_optional tick ks (elim (find k tick) [ none ↦ payload | some v ↦ assign k v payload ])

  unfoldable pub tick_payload_of : Fields → Result Fields
  unfolding find with_optional
  tick_payload_of tick = do
    price ← item tick "price"
    volume ← item tick "volume"
    product ← times price volume
    ok (
        with_optional tick optional_keys (
          field "price" price (
            field "volume" volume (
              field "turnover" (get_default tick "turnover" product) (
                field "side" (get_default tick "side" (str (codes "neutral")))
                  (field "broker_code" (get_default tick "broker_code" (str [])) end))))))

  abbrev paid :
      Text
      → Text
      → Text
      → Fields
      → Result Fields
      → RealtimeCollectorV2 W
      → Result Fields × RealtimeCollectorV2 W
  paid now fresh symbol tick (raise e) c = (raise e, c)
  paid now fresh symbol tick (ok payload) c =
      ingest_event now fresh (codes "tick") symbol payload
        (some (text_or py (get_value tick "period") (codes "hktransaction")))
        (some (text_or py (get_value tick "timestamp") now)) c

  unfoldable pub ingest_tick :
      (now fresh symbol : Text)
      → Fields
      → RealtimeCollectorV2 W
      → Result Fields × RealtimeCollectorV2 W
  unfolding tick_payload_of ingest_event text_or find
  ingest_tick now fresh symbol tick c = paid now fresh symbol tick (tick_payload_of tick) c

  unfoldable pub ingest_broker_queue :
      (now fresh symbol : Text)
      → Fields
      → RealtimeCollectorV2 W
      → Result Fields × RealtimeCollectorV2 W
  unfolding ingest_event text_or find
  ingest_broker_queue now fresh symbol broker_queue c =
      ingest_event now fresh (codes "broker_queue") symbol
        (field "side" (get_value broker_queue "side")
          (field "entries" (get_default broker_queue "entries" (list nil)) end))
        (some (text_or py (get_value broker_queue "period") (codes "hkbrokerqueueex")))
        (some (text_or py (get_value broker_queue "timestamp") now)) c

  unfoldable pub ingest_l2_order_book :
      (now fresh symbol : Text)
      → Fields
      → RealtimeCollectorV2 W
      → Result Fields × RealtimeCollectorV2 W
  unfolding ingest_event text_or find or_value
  ingest_l2_order_book now fresh symbol order_book c =
      ingest_event now fresh (codes "l2_order_book") symbol
        (field "ask"
          (or_value (get_value order_book "ask")
            (or_value (get_value order_book "asks") (list nil)))
          (field "bid"
            (or_value (get_value order_book "bid")
              (or_value (get_value order_book "bids") (list nil)))
            end))
        (some (text_or py (get_value order_book "period") (codes "l2thousand")))
        (some (text_or py (get_value order_book "timestamp") now)) c
