-- ===== src/Compute/Stage.antt =====
-- backend/beast_market/pipeline.py: the state of `OctopusComputeV2`, over a bus with states `B` and a snapshot cache with states
-- `K`, and the steps that its handlers share. A handler works on the state of one symbol and on the stage.
pub mod Handlers
pub mod Ticks
pub mod Emission
pub mod Numbering
pub mod Handled
pub mod Throttle
pub mod Sequences
use lynx_monitor.Prelude.{
  ℕ, ◌+◌, String, Text, Bool, true, false, not, ◌||◌, Option, none, some, List, [], ◌∷◌, ◌++◌,
  if◌then◌else◌, codes, text_eq, text_equality, Result, ok, raise, Error,
}
use lynx_monitor.Prelude.Dict.{Dict, get, put}
use lynx_monitor.Symbols.{is_empty}
use lynx_monitor.Value.{
  Value, bool, str, list, dict, nil, Fields, field, end, find, assign, get_value, fields_of,
  items_of,
}
use lynx_monitor.Contracts.{Python, raw_topic, processed_topic}
use lynx_monitor.Contracts.Events.{make_processed_market_event}
use lynx_monitor.Bus.{EventBus}
use lynx_monitor.Runtime.{text_of, texts_of}
use lynx_monitor.Runtime.RawEvents.{number_at}
use lynx_monitor.Bars.{or_value}
use lynx_monitor.Session.{Datetimes}
use lynx_monitor.Compute.Alerts.{BodState}
use lynx_monitor.Compute.Freshness.{is_in, texts}
use lynx_monitor.Compute.Edit.{Edit}
use lynx_monitor.Compute.Minutes.{minute_bucket, iso_timestamp_seconds}

pub record ComputeHealth : Type 0 where
  pub process : Text
  pub redis : Text
  pub kafka_lag : ℕ
  pub latest_event_at_by_symbol : Dict Text Text

pub record OctopusComputeV2 (B K : Type 0) : Type 0 where
  pub bus : B
  pub cache : K
  pub seq_by_symbol : Dict Text ℕ
  pub state_by_symbol : Dict Text Fields
  pub bod_by_symbol : Dict Text BodState
  pub latest_bar_flush_at_by_symbol : Dict Text Value
  pub latest_bar_flushed_minute_by_symbol : Dict Text Text
  pub health : ComputeHealth

-- A state while a handler works on it, and the stage
pub record Job (B K : Type 0) : Type 0 where
  pub state : Fields
  pub stage : OctopusComputeV2 B K

abbrev pub Handler : (B K : Type 0) → Type 0 → Type 0
Handler B K A = Job B K → Result A × Job B K

-- The reasons with one more, if it is new
abbrev pub reasons_with : Python → Text → Fields → List Text
reasons_with py reason freshness =
    let reasons =
      texts_of py (items_of (or_value (get_value freshness "degraded_reasons") (list nil))) in
    if is_in reason reasons then reasons else reasons ++ (reason ∷ [])

-- `state["freshness"]` after `_mark_redis_degraded`; its reasons are texts
unfoldable pub marked_degraded : Python → Text → Fields → Fields
unfolding find assign or_value text_eq
marked_degraded py reason state =
    let freshness = fields_of (or_value (get_value state "freshness") (dict end)) in
    assign "freshness"
      (dict (
        assign "degraded_reasons" (list (texts (reasons_with py reason freshness)))
          (assign "degraded" (bool true) freshness)))
      state

module _ {B K : Type 0} where
  unfoldable pub proceed :
      {A A' : Type 0} → (A → Handler B K A') → Result A × Job B K → Result A' × Job B K
  proceed f (ok a, j) = f a j
  proceed f (raise e, j) = (raise e, j)

  infixl 5 ◌>>=◌
  abbrev pub ◌>>=◌ : {A A' : Type 0} → Handler B K A → (A → Handler B K A') → Handler B K A'
  (m >>= f) j = proceed f (m j)

  abbrev pub finished : {A : Type 0} → A → Handler B K A
  finished a j = (ok a, j)

  -- An edit of the state
  unfoldable pub edit : {A : Type 0} → Edit A → Handler B K A
  edit m j = ((m j.state).0, record j { state = (m j.state).1 })

  -- self.seq_by_symbol[symbol] += 1, and the new number
  unfoldable pub next_number : Text → Handler B K ℕ
  unfolding get put text_eq
  next_number symbol j =
      let seq = number_at j.stage.seq_by_symbol symbol + 1 in
      (
        ok seq,
        record j {
          stage = record j.stage { seq_by_symbol = put j.stage.seq_by_symbol symbol seq };
        },
      )

  unfoldable pub mark_redis_degraded : Python → Text → Job B K → Job B K
  unfolding marked_degraded
  mark_redis_degraded py reason j = record j {
    state = marked_degraded py reason j.state;
    stage = record j.stage {
      health = record j.stage.health { process = codes "degraded"; redis = codes "degraded" };
    };
  }

  abbrev pub cached : Python → Result (Unit {0}) → Job B K → Job B K
  cached py (ok _) j = if text_eq j.stage.health.redis (codes "degraded") then j else record j {
    stage = record j.stage { health = record j.stage.health { redis = codes "connected" } };
  }
  cached py (raise e) j =
      mark_redis_degraded py (codes "redis_terminal_snapshot_write_failed: " ++ e.message) j

  -- `_cache_set_terminal_snapshot`; what the cache raises is caught
  unfoldable pub cache_set_terminal_snapshot :
      Python
      → (set_terminal_snapshot : Text → Text → Fields → K → Result (Unit {0}) × K)
      → (trade_date symbol : Text) → Handler B K (Unit {0})
  unfolding mark_redis_degraded text_eq
  cache_set_terminal_snapshot py set_terminal_snapshot trade_date symbol j =
      let (result, cache) = set_terminal_snapshot trade_date symbol j.state j.stage.cache in
      (ok tt, cached py result (record j { stage = record j.stage { cache = cache } }))

  module _ (py : Python) (bus : EventBus B) (fresh_id : Text → Text → ℕ → Text)
      (now_iso : Text) where
    abbrev pub sent : Fields → Result (Unit {0}) × B → Job B K → Result Fields × Job B K
    sent event (ok _, b) j = (ok event, record j { stage = record j.stage { bus = b } })
    sent event (raise e, b) j = (raise e, record j { stage = record j.stage { bus = b } })

    abbrev pub send : Text → Result Fields → Handler B K Fields
    send symbol (raise e) j = (raise e, j)
    send symbol (ok event) j = sent event (bus.publish processed_topic symbol event j.stage.bus) j

    -- Making a processed event and publishing it
    unfoldable pub publish_processed :
        (result_type symbol : Text)
        → (seq : ℕ) → (source_ts : Text) → (payload : Fields) → Handler B K Fields
    unfolding make_processed_market_event
    publish_processed result_type symbol seq source_ts payload j =
        send symbol
          (make_processed_market_event py (fresh_id result_type symbol seq) now_iso result_type
            symbol (codes "octopus") payload seq (some source_ts) none none none)
          j

    -- The health at the end of a handler
    unfoldable pub note_event : (symbol source_ts : Text) → Handler B K (Unit {0})
    unfolding get put text_eq
    note_event symbol source_ts j = (
      ok tt,
      record j {
        stage = record j.stage {
          health = record j.stage.health {
            latest_event_at_by_symbol =
                put j.stage.health.latest_event_at_by_symbol symbol source_ts;
            kafka_lag = bus.lag raw_topic (number_at j.stage.seq_by_symbol symbol) j.stage.bus;
          };
        };
      },
    )
